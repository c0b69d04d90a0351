-- ===== src/Tests/UtilWitnesses.antt =====
-- The theorems on the hash table, the cache process and the log, at concrete inputs.
use cherokee.Base.{
  true, false, List, [], ◌∷◌, ◌++◌, Option, none, some, ◌≡◌, ◌≢◌, refl, arith, ltb, if◌then◌else◌,
  length, Bool-cases, inl, inr,
}
use cherokee.Send.Decimal.{to_string, digits_onto}
use cherokee.Text.{Bytes, codes, equal, equal_sound, equal_self}
use cherokee.Utils.HashTable.{
  HSearch, insert_into_hash_table, find_in_hash_table, insert_all, first_inserted, or_else,
  find-insert_all,
}
use cherokee.Base.Int.{ℤ, pos}
use cherokee.Utils.Ipc.{IpcCall, Process, still_runs}
use cherokee.Utils.Cache.{cache_manager, pairs, cache_left, cache_manager_lem}
use cherokee.Utils.LogPrefix.{
  Now, IsTime, zeros, padded, time_text, out_head, label, out_head-whole,
}

-- A table with room for two entries.
abbrev Entries : Type 0
Entries = List (Bytes × Bytes)

abbrev look_up : Entries → Bytes → Option Bytes
look_up [] j = none
look_up ((k, v) ∷ es) j = let rest = look_up es j in if equal j k then some v else rest

abbrev enter_at : Option Bytes → Entries → Bytes → Bytes → Option Bytes × Entries
enter_at (some w) t k v = (some w, t)
enter_at none t k v = if ltb (length t) 2 then (some v, (k, v) ∷ t) else (none, t)

at_same : (t : Entries) (k v : Bytes) → look_up ((k, v) ∷ t) k ≡ some v
at_same t k v = rw (equal_self k) refl

at_other : (t : Entries) (k v j : Bytes) → j ≢ k → look_up ((k, v) ∷ t) j ≡ look_up t j
at_other t k v j ne = elim (Bool-cases (equal j k)) [
  | inl e ↦ absurd (ne (equal_sound j k e))
  | inr e ↦ rw e refl
]

entered_new :
    (t : Entries) (k v w : Bytes)
    → (enter_at none t k v).0 ≡ some w
    → (look_up (enter_at none t k v).1 k ≡ some v)
      × ((j : Bytes) → j ≢ k → look_up (enter_at none t k v).1 j ≡ look_up t j)
entered_new t k v w h = elim (Bool-cases (ltb (length t) 2)) [
  | inl room ↦ rw room (at_same t k v, at_other t k v)
  | inr full ↦ let refused : (enter_at none t k v).0 ≡ none = rw full refl in cc
]

entered_absent :
    (o : Option Bytes) (t : Entries) (k v w : Bytes)
    → o ≡ none
    → (enter_at o t k v).0 ≡ some w
    → (look_up (enter_at o t k v).1 k ≡ some v)
      × ((j : Bytes) → j ≢ k → look_up (enter_at o t k v).1 j ≡ look_up t j)
entered_absent none t k v w h e = entered_new t k v w e
entered_absent (some u) t k v w h e = absurd cc

entered_full :
    (o : Option Bytes) (t : Entries) (k v : Bytes)
    → (enter_at o t k v).0 ≡ none
    → (j : Bytes) → look_up (enter_at o t k v).1 j ≡ look_up t j
entered_full (some w) t k v h j = refl
entered_full none t k v h j = elim (Bool-cases (ltb (length t) 2)) [
  | inl room ↦ let taken : (enter_at none t k v).0 ≡ some v = rw room refl in cc
  | inr full ↦ rw full refl
]

abbrev two_entries : HSearch Entries
two_entries = record {
  enter = λ t k v. enter_at (look_up t k) t k v;
  lookup = look_up;
  enter_old = λ t k v w h. rw h (refl, λ j. refl);
  enter_new = λ t k v w h e. entered_absent (look_up t k) t k v w h e;
  enter_full = λ t k v. entered_full (look_up t k) t k v;
}

-- The second value for the first key is not taken, and the third key finds the table full.
abbrev insertions : List (Bytes × Bytes)
insertions =
    (codes "a", codes "1")
    ∷ (codes "a", codes "2")
    ∷ (codes "b", codes "3")
    ∷ (codes "c", codes "4")
    ∷ []

insertions_run : (insert_all two_entries [] insertions).0 ≡ true ∷ true ∷ true ∷ false ∷ []
unfolding insert_all insert_into_hash_table equal
insertions_run = refl

find-insert_all_example :
    find_in_hash_table two_entries (insert_all two_entries [] insertions).1 (codes "a")
    ≡ or_else
        (find_in_hash_table two_entries [] (codes "a"))
        (first_inserted (codes "a") insertions (insert_all two_entries [] insertions).0)
find-insert_all_example = find-insert_all two_entries [] insertions (codes "a")

abbrev noon : Now
noon = record {
  tm_hour = 12;
  tm_min = 0;
  tm_sec = 5;
  tv_usec = 12_345;
  tm_year = 124;
  tm_mon = 10;
  tm_mday = 26;
}

noon-IsTime : IsTime noon
noon-IsTime = record {
  hour = omega arith;
  min = omega arith;
  sec = omega arith;
  usec = omega arith;
  year = omega arith;
  mon = omega arith;
  mday = omega arith;
}

noon_run : time_text noon ≡ codes "12:00:05.12345 2024-11-26"
unfolding time_text padded zeros to_string digits_onto
noon_run = refl

out_head-whole_example : out_head noon (codes "error") ≡ time_text noon ++ label (codes "error")
out_head-whole_example = out_head-whole noon (codes "error") noon-IsTime

abbrev no_block : Process
no_block = record { calls = []; live = []; fresh = 4 }

-- The semaphore can be made, the table cannot.
abbrev no_table : IpcCall → ℤ
no_table c = pos 0

cache_manager_lem_example :
    cache_manager 3 no_table no_block ≡ still_runs (cache_left no_table no_block (pairs 3))
cache_manager_lem_example = cache_manager_lem 3 no_table no_block
