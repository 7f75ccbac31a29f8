-- ===== src/Paths/Path.antt =====
-- Operations on paths and on owned paths (`Path` and `iter_after` of
-- crates/common/ov6_types/src/path/mod.rs, `PathBuf` of crates/common/ov6_types/src/path/path_buf.rs).
use ov.Prelude.{
  ℕ, zero, suc, ◌+◌, Bool, true, false, not, Option, none, some, [], ◌∷◌, ◌++◌, length, take, Run,
  done, if◌then◌else◌, ◌>>=◌,
}
use ov.Paths.Slices.{Bytes, slash, starts_slash, strip_suffix, bytes_eq}
use ov.Paths.Components.{
  Component, root_dir, cur_dir, parent_dir, normal, Components, components, next, next_back,
}

unfoldable pub is_absolute : Bytes → Bool
unfolding starts_slash
is_absolute path = starts_slash path

unfoldable pub is_relative : Bytes → Bool
unfolding is_absolute
is_relative path = not (is_absolute path)

abbrev pub parent_at : Option Component × Components → Option Bytes
parent_at (none, comps) = none
parent_at (some root_dir, comps) = none
parent_at (some cur_dir, comps) = some comps.path
parent_at (some parent_dir, comps) = some comps.path
parent_at (some (normal p), comps) = some comps.path

unfoldable pub parent : Bytes → Run (Option Bytes)
unfolding next_back components
parent path = do taken ← next_back (components path); done (parent_at taken)

abbrev pub file_name_at : Option Component × Components → Option Bytes
file_name_at (some (normal p), comps) = some p
file_name_at taken = none

unfoldable pub file_name : Bytes → Run (Option Bytes)
unfolding next_back components
file_name path = do taken ← next_back (components path); done (file_name_at taken)

unfoldable pub component_eq : Component → Component → Bool
unfolding bytes_eq
component_eq root_dir root_dir = true
component_eq cur_dir cur_dir = true
component_eq parent_dir parent_dir = true
component_eq (normal p) (normal q) = bytes_eq p q
component_eq a b = false

-- An iterator gives its next item and what it is after that; a reversed one gives its last item.
abbrev pub Iterator : Type 0
Iterator = Components → Run (Option Component × Components)

abbrev pub forward : Iterator
forward c = done (next c)

-- How a round of the loop of `iter_after` ends.
pub data Round : Type 0 where
  again : Round
  found : Round
  missing : Round

abbrev pub round : Option Component → Option Component → Round
round (some x) (some y) = if component_eq x y then again else missing
round none (some y) = missing
round x none = found

-- The loop of `iter_after`, both of whose iterators are of the same direction; the outer `none` is
-- that the fuel is used up.
unfoldable pub iter_after :
    ℕ → Iterator → Components → Components → Run (Option (Option Components))
iter_after zero step iter prefix = done none
iter_after (suc fuel) step iter prefix = do
  (x, iter_next) ← step iter
  (y, prefix') ← step prefix
  elim (round x y) [
    | again ↦ iter_after fuel step iter_next prefix'
    | found ↦ done (some (some iter))
    | missing ↦ done (some none)
  ]

abbrev pub is_found : Option (Option Components) → Bool
is_found (some (some c)) = true
is_found (some none) = false
is_found none = false

abbrev pub path_found : Option (Option Components) → Option Bytes
path_found (some (some c)) = some c.path
path_found (some none) = none
path_found none = none

-- A path has at most one component more than it has bytes.
abbrev pub rounds : Bytes → ℕ
rounds base = length base + 2

-- `none` is `StripPrefixError`.
unfoldable pub strip_prefix : Bytes → Bytes → Run (Option Bytes)
unfolding iter_after components
strip_prefix path base = do
  result ← iter_after (rounds base) forward (components path) (components base)
  done (path_found result)

unfoldable pub starts_with : Bytes → Bytes → Run Bool
unfolding iter_after components
starts_with path base = do
  result ← iter_after (rounds base) forward (components path) (components base)
  done (is_found result)

unfoldable pub ends_with : Bytes → Bytes → Run Bool
unfolding iter_after components next_back
ends_with path child = do
  result ← iter_after (rounds child) next_back (components path) (components child)
  done (is_found result)

-- `PathBuf::push`
unfoldable pub push : Bytes → Bytes → Bytes
unfolding is_absolute strip_suffix
push inner path =
    if is_absolute path
    then path
    else elim (strip_suffix inner) [ some _ ↦ inner ++ path | none ↦ (inner ++ slash ∷ []) ++ path ]

abbrev pub truncate_at : Bytes → Option Bytes → Bool × Bytes
truncate_at inner (some p) = (true, take (length p) inner)
truncate_at inner none = (false, inner)

-- `PathBuf::pop`: its result, and the path after it.
unfoldable pub pop : Bytes → Run (Bool × Bytes)
unfolding parent
pop inner = do p ← parent inner; done (truncate_at inner p)

abbrev pub popped_if {ℓ} : {A : Type ℓ} → Option A → Bytes → Run (Bool × Bytes)
popped_if (some _) inner = pop inner
popped_if none inner = done (false, inner)

unfoldable pub set_file_name : Bytes → Bytes → Run Bytes
unfolding file_name pop push
set_file_name inner name = do
  current ← file_name inner
  (_, inner') ← popped_if current inner
  done (push inner' name)
