-- ===== src/Http/Jobs/Trim.antt =====
-- What trimLocked leaves: the newest jobs, and of the map exactly their entries.
use torvix.Prelude.{
  inr, ◌∙◌, tests, suc, ◌==◌, inl, true, ltb, Bool-cases, ◌+◌, ◌-◌, ◌≡◌, refl, false, String, some,
  List, [], ◌∷◌, ◌++◌, arith, length, drop, length-append, eq_iff,
}
use torvix.Prelude.Keys.{Map, delete, contains, Distinct, is_some}
use torvix.Http.Jobs.{Job, max_stored_jobs, trim}

-- The keys of the map are those of the order.
abbrev pub Tracks : Map Job → List String → Type 0
Tracks jobs order = (k : String) → is_some (jobs k) ≡ contains k order

pub delete-Tracks :
    (jobs : Map Job) (o : String) (rest : List String)
    → Tracks jobs (o ∷ rest)
    → contains o rest ≡ false
    → Tracks (delete o jobs) rest
delete-Tracks jobs o rest t h k = ground (arith, t k, eq_iff o k)

-- Only entries of the old map remain.
pub trim_kept :
    (jobs : Map Job) (active : String) (order : List String) (k : String) (j : Job)
    → (trim jobs active order).0 k ≡ some j
    → jobs k ≡ some j
unfolding trim
trim_kept jobs active [] k j h = h
trim_kept jobs active (o ∷ rest) k j h = ground (arith, trim_kept (delete o jobs) active rest k j)

module _ (active : String) where
  -- The active job is never removed.
  pub trim_active :
      (jobs : Map Job) (order : List String) → (trim jobs active order).0 active ≡ jobs active
  unfolding trim
  trim_active jobs [] = refl
  trim_active jobs (o ∷ rest) = ground (arith, trim_active (delete o jobs) rest, eq_iff o active)

  pub trim-Tracks :
      (jobs : Map Job) (order : List String)
      → Tracks jobs order
      → Distinct order
      → Tracks (trim jobs active order).0 (trim jobs active order).1
  unfolding trim
  trim-Tracks jobs [] t d = t
  trim-Tracks jobs (o ∷ rest) t d =
      let kept = trim-Tracks (delete o jobs) rest (delete-Tracks jobs o rest t d.0) d.1 in
      λ k. ground (arith, t k, kept k)

  pub trim-Distinct :
      (jobs : Map Job) (order : List String) → Distinct order → Distinct (trim jobs active order).1
  unfolding trim
  trim-Distinct jobs [] d = d
  trim-Distinct jobs (o ∷ rest) d = ground (arith, trim-Distinct (delete o jobs) rest d.1)

  -- Nothing goes while the order is short enough; else the head goes, unless it is active.
  trim_short :
      (jobs : Map Job) (o : String) (rest : List String)
      → ltb max_stored_jobs (length (o ∷ rest)) ≡ false
      → (trim jobs active (o ∷ rest)).1 ≡ o ∷ rest
  unfolding trim
  trim_short jobs o rest h = ground arith

  trim_long :
      (jobs : Map Job) (o : String) (rest : List String)
      → ltb max_stored_jobs (length (o ∷ rest)) ≡ true
      → (o == active) ≡ false
      → (trim jobs active (o ∷ rest)).1 ≡ (trim (delete o jobs) active rest).1
  unfolding trim
  trim_long jobs o rest h e = ground arith

  -- With the active job last, and nowhere else, what is left is the newest jobs.
  pub trim_newest :
      (jobs : Map Job) (xs : List String)
      → contains active xs ≡ false
      → (trim jobs active (xs ++ active ∷ [])).1
        ≡ drop (length xs + 1 - max_stored_jobs) (xs ++ active ∷ [])
  unfolding trim
  trim_newest jobs [] h = refl
  trim_newest jobs (o ∷ xs) h =
      elim (Bool-cases (ltb max_stored_jobs (length (o ∷ (xs ++ active ∷ []))))) [
        | inl full ↦
            let e : length (o ∷ xs) + 1 - max_stored_jobs ≡ suc (length xs + 1 - max_stored_jobs) =
              omega (tests, length-append xs (active ∷ [])) in
            trim_long jobs o (xs ++ active ∷ []) full (ground (arith, eq_iff o active))
            ∙ trim_newest (delete o jobs) xs (ground arith)
            ∙ rw e refl
        | inr fits ↦
            let e : length (o ∷ xs) + 1 - max_stored_jobs ≡ 0 =
              ground (arith, length-append xs (active ∷ [])) in
            trim_short jobs o (xs ++ active ∷ []) fits ∙ rw e refl
      ]
