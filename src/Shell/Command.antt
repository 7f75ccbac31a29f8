-- ===== src/Shell/Command.antt =====
-- The commands that the parser of the shell builds
-- (crates/user/ov6_utilities/src/bin/sh/command.rs).
use ov.Prelude.{Bool, false, Option, none, List}
use ov.Shell.Tokenizer.{Bytes}

pub data OutputMode : Type 0 where
  truncate : OutputMode
  append : OutputMode

pub record Redirect : Type 0 where
  pub stdin : Option Bytes
  pub stdout : Option (Bytes × OutputMode)

abbrev pub no_redirect : Redirect
no_redirect = record { stdin = none; stdout = none }

mutual
  -- The kind of a command, and whether it runs in the background.
  pub data Command : Type 0 where
    command : CommandKind → Bool → Command

  pub data CommandKind : Type 0 where
    subshell : Commands → Redirect → CommandKind
    exec : List Bytes → Redirect → CommandKind
    pipe : Command → Command → CommandKind
    logical_and : Command → Command → CommandKind
    logical_or : Command → Command → CommandKind

  -- `Vec<Command>`
  pub data Commands : Type 0 where
    nothing : Commands
    first : Command → Commands → Commands

abbrev pub new : CommandKind → Command
new kind = command kind false
