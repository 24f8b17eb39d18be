-- ===== src/Oci/Listing/Limit.antt =====
-- The listing of objects ends, within its limit.
use torvix.Prelude.{
  ◌=ℕ◌, Bool-cases, length, length-append, ℕ, zero, suc, ◌+◌, ◌-◌, ◌≤◌, ◌<◌, String, ◌≡◌, inl, inr,
  Bool, false, ◌||◌, Option, none, some, List, [], ◌∷◌, ◌++◌, arith, ◌==◌,
}
use torvix.Prelude.Keys.{contains}
use torvix.Prelude.Exec.{Exec, Ensures, bind-Ensures, pure-Ensures}
use torvix.Oci.Objects.{ObjectInfo, Client}
use torvix.Oci.Listing.{page_limit, is_full, after_page, list_pages, list_objects_from}

out_of_range : (listed limit : ℕ) → listed < limit → limit ≤ listed + 0 → ⊥
out_of_range listed limit h e = omega arith

module _ {W : Type 0} (client : Client W) (quote : String → String) (prefix : String) (limit : ℕ)
    (positive : 0 < limit)
    (pages : (start : String) (n : ℕ) (w : W)
      → Ensures (λ page w'. length page.0 ≤ n) (client.list_objects_page prefix start n w)) where
  -- The fuel was enough, and no more objects are listed than the limit.
  abbrev pub IsListed : Option (List ObjectInfo) → W → Type 0
  IsListed none w = ⊥
  IsListed (some os) w = length os ≤ limit

  page_limit_fits : (listed : ℕ) → page_limit limit listed ≤ limit - listed
  page_limit_fits listed = ground (arith, positive)

  not_full : (listed : ℕ) (b : Bool) → (is_full limit listed || b) ≡ false → listed < limit
  not_full listed b h = ground (arith, positive)

  after_page-IsListed :
      (k : ℕ) (more : String → List ObjectInfo → List String → Exec W (Option (List ObjectInfo)))
      (out : List ObjectInfo) (seen : List String) (objects : List ObjectInfo) (next : String)
      (w : W)
      → ((start : String) (listed : List ObjectInfo) (seen : List String) (w : W)
          → length listed < limit
          → limit ≤ length listed + k
          → Ensures IsListed (more start listed seen w))
      → length out + length objects ≤ limit
      → limit ≤ length out + suc k
      → Ensures IsListed (after_page client quote prefix limit more out seen objects next w)
  after_page-IsListed k more out seen [] next w ih h e =
      pure-Ensures (some out) w (omega (arith, h))
  after_page-IsListed k more out seen (o ∷ os) next w ih h e =
      let count = length-append out (o ∷ os) in
      elim (Bool-cases (is_full limit (length (out ++ (o ∷ os))) || next == "")) [
        | inl p ↦ rw p (pure-Ensures (some (out ++ (o ∷ os))) w (omega (arith, count, h)))
        | inr p ↦ rw p (elim (Bool-cases (contains next seen)) [
          | inl q ↦ rw q (record { holds = tt })
          | inr q ↦
              rw q (
                ih next (out ++ (o ∷ os)) (next ∷ seen) w (not_full _ _ p)
                  (omega (arith, count, e)))
        ])
      ]

  list_pages-IsListed :
      (k : ℕ) (start : String) (out : List ObjectInfo) (seen : List String) (w : W)
      → length out < limit
      → limit ≤ length out + k
      → Ensures IsListed (list_pages client quote prefix limit k start out seen w)
  unfolding list_pages
  list_pages-IsListed zero start out seen w h e = elim (out_of_range (length out) limit h e) [ ]
  list_pages-IsListed (suc k) start out seen w h e =
      elim (Bool-cases (page_limit limit (length out) =ℕ 0)) [
        | inl p ↦ rw p (pure-Ensures (some out) w (omega (arith, h)))
        | inr p ↦ rw p (
            bind-Ensures (λ page w'. length page.0 ≤ page_limit limit (length out)) _ _ w
              (pages start (page_limit limit (length out)) w)
              (λ page w' q.
                after_page-IsListed k (list_pages client quote prefix limit k) out seen page.0
                  page.1 w' (list_pages-IsListed k)
                  (omega (arith, q, page_limit_fits (length out), h)) e))
      ]

  -- Where the limit is positive and the client gives no more objects than it is asked for, the listing
  -- ends within as many pages as the limit, and a listing that succeeds has no more objects than it.
  pub list_objects_from-IsListed :
      (start : String) (w : W)
      → Ensures IsListed (list_objects_from client quote prefix limit limit start w)
  unfolding list_objects_from
  list_objects_from-IsListed start w =
      list_pages-IsListed limit start [] [] w positive (omega arith)
