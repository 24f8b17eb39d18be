-- ===== src/Postgres/Migrator/Sorting.antt =====
-- Sorting the names of the migrations keeps them all, once each, and puts them in order.
use mathlib.Core.List.{Perm}
use mathlib.Core.List.Perm
use Prim.Native.Nat.{Ordering}
use Prim.Native.String.{compare}
use torvix.Prelude.Comparison.{opposite, compare-converse}
use torvix.Prelude.{
  true, if◌then◌else◌, sym, ◌≢◌, Bool-cases, String, ◌≡◌, refl, ◌∙◌, inl, inr, Bool, false, ◌||◌,
  List, [], ◌∷◌, arith, ◌==◌, eq_iff,
}
use torvix.Prelude.Keys.{contains, Distinct}
use torvix.Postgres.Migrator.{Ordering, compare, before, insert_string, sort_strings}

-- No text is greater than the one that follows it, by the order of their characters.
abbrev pub IsAscending : List String → Type 0
IsAscending [] = Unit
IsAscending (s ∷ []) = Unit
IsAscending (s ∷ t ∷ ts) = (compare s t ≢ Ordering.gt) × IsAscending (t ∷ ts)

contains-insert_string :
    (k s : String) (ts : List String) → contains k (insert_string s ts) ≡ contains k (s ∷ ts)
contains-insert_string k s [] = refl
contains-insert_string k s (t ∷ ts) = elim (Bool-cases (before t s)) [
  | inr e ↦ rw e refl
  | inl e ↦ rw (e, contains-insert_string k s ts) (swap (t == k) (s == k) (contains k ts))
]
  where
    swap : (a b c : Bool) → (a || (b || c)) ≡ (b || (a || c))
    swap a b c = ground arith

pub contains-sort_strings :
    (k : String) (ss : List String) → contains k (sort_strings ss) ≡ contains k ss
unfolding sort_strings
contains-sort_strings k [] = refl
contains-sort_strings k (s ∷ ss) =
    contains-insert_string k s (sort_strings ss) ∙ rw (contains-sort_strings k ss) refl

Distinct-insert_string :
    (s : String) (ts : List String)
    → contains s ts ≡ false
    → Distinct ts
    → Distinct (insert_string s ts)
Distinct-insert_string s [] h d = (refl, tt)
Distinct-insert_string s (t ∷ ts) h d = elim (Bool-cases (before t s)) [
  | inr e ↦ rw e (h, d)
  | inl e ↦ rw e (
    ground (arith, contains-insert_string t s ts, d.0, eq_iff s t, eq_iff t s),
    Distinct-insert_string s ts (ground arith) d.1,
  )
]

pub sort_strings-Distinct : (ss : List String) → Distinct ss → Distinct (sort_strings ss)
unfolding sort_strings
sort_strings-Distinct [] d = tt
sort_strings-Distinct (s ∷ ss) d =
    Distinct-insert_string s (sort_strings ss) (contains-sort_strings s ss ∙ d.0)
      (sort_strings-Distinct ss d.1)

before-gt : (o : Ordering) → elim o [ Ordering.lt ↦ true | _ ↦ false ] ≡ true → o ≢ Ordering.gt
before-gt Ordering.lt h e = cc
before-gt Ordering.eq h e = cc
before-gt Ordering.gt h e = cc

not_before-gt :
    (o : Ordering) → elim o [ Ordering.lt ↦ true | _ ↦ false ] ≡ false → opposite o ≢ Ordering.gt
not_before-gt Ordering.lt h e = cc
not_before-gt Ordering.eq h e = cc
not_before-gt Ordering.gt h e = cc

insert_behind :
    (b : Bool) (t s u : String) (us inserted : List String)
    → compare t s ≢ Ordering.gt
    → compare t u ≢ Ordering.gt
    → IsAscending (if b then u ∷ inserted else s ∷ u ∷ us)
    → IsAscending (t ∷ (if b then u ∷ inserted else s ∷ u ∷ us))
insert_behind true t s u us inserted h k a = (k, a)
insert_behind false t s u us inserted h k a = (h, a)

insert_string-behind :
    (t s : String) (us : List String)
    → compare t s ≢ Ordering.gt
    → IsAscending (t ∷ us)
    → IsAscending (insert_string s us)
    → IsAscending (t ∷ insert_string s us)
insert_string-behind t s [] h k a = (h, tt)
insert_string-behind t s (u ∷ us) h k a =
    insert_behind (before u s) t s u us (insert_string s us) h k.0 a

tail-IsAscending : (t : String) (ts : List String) → IsAscending (t ∷ ts) → IsAscending ts
tail-IsAscending t [] h = tt
tail-IsAscending t (u ∷ us) h = h.1

insert_string-IsAscending :
    (s : String) (ts : List String) → IsAscending ts → IsAscending (insert_string s ts)
insert_string-IsAscending s [] h = tt
insert_string-IsAscending s (t ∷ ts) h = elim (Bool-cases (before t s)) [
  | inr e ↦ rw e ((λ g. not_before-gt (compare t s) e (sym (compare-converse t s) ∙ g)), h)
  | inl e ↦ rw e (
      insert_string-behind t s ts (before-gt (compare t s) e) h
        (insert_string-IsAscending s ts (tail-IsAscending t ts h)))
]

pub sort_strings-IsAscending : (ss : List String) → IsAscending (sort_strings ss)
unfolding sort_strings
sort_strings-IsAscending [] = tt
sort_strings-IsAscending (s ∷ ss) =
    insert_string-IsAscending s (sort_strings ss) (sort_strings-IsAscending ss)

insert_string-perm : (s : String) (ts : List String) → Perm (insert_string s ts) (s ∷ ts)
insert_string-perm s [] = Perm.refl _
insert_string-perm s (t ∷ ts) = elim (Bool-cases (before t s)) [
  | inl e ↦ rw e (Perm.trans (Perm.cons t (insert_string-perm s ts)) (Perm.swap s t ts))
  | inr e ↦ rw e (Perm.refl (s ∷ t ∷ ts))
]

pub sort_strings-perm : (ss : List String) → Perm (sort_strings ss) ss
unfolding sort_strings
sort_strings-perm [] = Perm.refl []
sort_strings-perm (s ∷ ss) =
    Perm.trans (insert_string-perm s (sort_strings ss)) (Perm.cons s (sort_strings-perm ss))
