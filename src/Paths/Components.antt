-- ===== src/Paths/Components.antt =====
-- The components of a path, taken from both ends (`Component`, `Components` of
-- crates/common/ov6_types/src/path/mod.rs).
use ov.Prelude.{
  ℕ, zero, suc, Bool, false, ◌&&◌, ◌||◌, not, Option, none, some, [], ◌∷◌, length, take, Run, done,
  assert, ◌==◌, ltb, if◌then◌else◌, ◌>>◌,
}
use ov.Paths.Slices.{
  Bytes, slash, starts_slash, strip_suffix, split_once, rsplit_once, bytes_eq, is_empty,
}

pub data Component : Type 0 where
  root_dir : Component
  cur_dir : Component
  parent_dir : Component
  normal : Bytes → Component

abbrev pub dot : ℕ
dot = 46

unfoldable pub as_os_str : Component → Bytes
as_os_str root_dir = slash ∷ []
as_os_str cur_dir = dot ∷ []
as_os_str parent_dir = dot ∷ dot ∷ []
as_os_str (normal path) = path

pub record Components : Type 0 where
  pub path : Bytes
  pub has_root_dir : Bool

-- `while let Some(rest) = path.strip_prefix(b"/") { path = rest; }`
unfoldable pub skip_slashes : Bytes → Bytes
skip_slashes [] = []
skip_slashes (c ∷ p) = let rest = skip_slashes p in if c == slash then rest else c ∷ p

unfoldable pub trim_leading_slashes : Components → Components
unfolding skip_slashes
trim_leading_slashes c = if c.has_root_dir then c else record c { path = skip_slashes c.path }

-- The loop of `trim_trailing_slashes`: a round takes a byte, so the length is fuel enough.
unfoldable pub trim_rounds : ℕ → Components → Components
unfolding strip_suffix
trim_rounds zero c = c
trim_rounds (suc fuel) c =
    if not c.has_root_dir || ltb 1 (length c.path)
    then elim (strip_suffix c.path) [
      | none ↦ c
      | some path ↦ trim_rounds fuel (record c { path = path })
    ]
    else c

unfoldable pub trim_trailing_slashes : Components → Components
unfolding trim_rounds
trim_trailing_slashes c = trim_rounds (length c.path) c

-- `Components::new`
unfoldable pub components : Bytes → Components
unfolding trim_leading_slashes trim_trailing_slashes starts_slash
components path =
    trim_trailing_slashes
      (trim_leading_slashes (record { path = path; has_root_dir = starts_slash path }))

-- The `match` on the bytes of a component.
unfoldable pub component : Bytes → Option Component
unfolding bytes_eq
component comp =
    if bytes_eq comp (dot ∷ dot ∷ [])
    then some parent_dir
    else if bytes_eq comp (dot ∷ [])
    then some cur_dir
    else if is_empty comp
    then none
    else some (normal comp)

abbrev pub or_else {ℓ} : {A : Type ℓ} → Option A → A → A
or_else none d = d
or_else (some a) d = a

unfoldable pub next : Components → Option Component × Components
unfolding trim_leading_slashes split_once component starts_slash
next c =
    if is_empty c.path
    then (none, c)
    else if c.has_root_dir && starts_slash c.path
    then (some root_dir, trim_leading_slashes (record c { has_root_dir = false }))
    else let (comp, rest) = or_else (split_once slash c.path) (c.path, []) in
      (component comp, trim_leading_slashes (record c { path = rest }))

-- The `assert_eq!` on the first byte may panic.
unfoldable pub next_back : Components → Run (Option Component × Components)
unfolding trim_trailing_slashes rsplit_once component starts_slash
next_back c =
    if c.has_root_dir && bytes_eq c.path (slash ∷ [])
    then done (some root_dir, record c { has_root_dir = false; path = [] })
    else if is_empty c.path
    then done (none, c)
    else let (rest, comp) = or_else (rsplit_once slash c.path) ([], c.path) in
      if is_empty rest && c.has_root_dir
      then (do
        assert (starts_slash c.path)
        done (component comp, trim_trailing_slashes (record c { path = take 1 c.path })))
      else done (component comp, trim_trailing_slashes (record c { path = rest }))
