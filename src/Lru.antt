-- ===== src/Lru.antt =====
-- crates/kernel/lru/src/lib.rs: `LruMap`, its list from the most to the least recently used, with
-- numbers for the keys. A value is known by its slot, the `Arc` that it is in; the count of an
-- entry is the `Arc`'s strong count, which the list itself holds one of. `Drop for LruValue` is two
-- steps: `promote` of its key under the lock, and later `drop_slot`, when its `Arc` is dropped.
pub mod Entries
pub mod Sharing
pub mod Calls
pub mod Counting
pub mod History
pub mod Tests
use ov.Prelude.{
  ◌>>◌, ℕ, zero, suc, ◌+◌, ◌-◌, Bool, false, Option, none, some, List, [], ◌∷◌, Run, done, assert,
  ◌==◌, ltb, if◌then◌else◌,
}

pub record Entry : Type 0 where
  pub key : Option ℕ
  pub slot : ℕ
  pub count : ℕ

-- `LruValue`
pub record LruValue : Type 0 where
  pub key : ℕ
  pub slot : ℕ

-- `k.as_ref() == Some(&key)`
abbrev pub has_key : ℕ → Entry → Bool
has_key k e = elim e.key [ none ↦ false | some j ↦ j == k ]

-- `for _ in 0..size { list.push_back((None, Arc::new(V::default()))) }`, from slot `i` on
abbrev pub fresh_entries : ℕ → ℕ → List Entry
fresh_entries i zero = []
fresh_entries i (suc n) = record { key = none; slot = i; count = 1 } ∷ fresh_entries (i + 1) n

-- `LruMap::new_in`
unfoldable pub new : ℕ → Run (List Entry)
new size = do assert (ltb 0 size); done (fresh_entries 0 size)

-- `Arc::clone` of the value of an entry
abbrev pub cloned : Entry → Entry
cloned e = record e { count = e.count + 1 }

abbrev pub onto : Entry → Option (ℕ × List Entry) → Option (ℕ × List Entry)
onto e none = none
onto e (some (s, es)) = some (s, e ∷ es)

-- The value with the key.
unfoldable pub find : ℕ → List Entry → Option (ℕ × List Entry)
find k [] = none
find k (e ∷ es) =
    let rest = onto e (find k es) in if has_key k e then some (e.slot, cloned e ∷ es) else rest

abbrev pub recycled : ℕ → Entry → Entry
recycled k e = record e { key = some k; count = e.count + 1 }

-- The least recently used value that is not referenced, under its new key.
unfoldable pub recycle : ℕ → List Entry → Option (ℕ × List Entry)
recycle k [] = none
recycle k (e ∷ es) = elim (recycle k es) [
  | some (s, es') ↦ some (s, e ∷ es')
  | none ↦ if e.count == 1 then some (e.slot, recycled k e ∷ es) else none
]

-- `LruMap::get`
unfoldable pub get : ℕ → List Entry → Option (LruValue × List Entry)
get k es = elim (find k es) [
  | some (s, es') ↦ some (record { key = k; slot = s }, es')
  | none ↦ elim (recycle k es) [
    | some (s, es') ↦ some (record { key = k; slot = s }, es')
    | none ↦ none
  ]
]

abbrev pub behind : Entry → Option (Entry × List Entry) → Option (Entry × List Entry)
behind e none = none
behind e (some (x, es)) = some (x, e ∷ es)

-- `self.list.extract_if(…).next()`
unfoldable pub extract : ℕ → List Entry → Option (Entry × List Entry)
extract k [] = none
extract k (e ∷ es) =
    let rest = behind e (extract k es) in if has_key k e then some (e, es) else rest

-- `LruMap::promote`
unfoldable pub promote : ℕ → List Entry → List Entry
promote k es = elim (extract k es) [ none ↦ es | some (e, es') ↦ e ∷ es' ]

-- The value of the slot counts one reference more, or one less: `Arc::clone` and the drop of an
-- `Arc`.
abbrev pub clone_slot : ℕ → List Entry → List Entry
clone_slot s [] = []
clone_slot s (e ∷ es) = (if e.slot == s then cloned e else e) ∷ clone_slot s es

abbrev pub drop_slot : ℕ → List Entry → List Entry
drop_slot s [] = []
drop_slot s (e ∷ es) =
    (if e.slot == s then record e { count = e.count - 1 } else e) ∷ drop_slot s es

-- `Clone for LruValue`
unfoldable pub clone_value : LruValue → List Entry → LruValue × List Entry
clone_value v es = (v, clone_slot v.slot es)
