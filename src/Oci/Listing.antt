-- ===== src/Oci/Listing.antt =====
-- oci/collector.go: listObjectsFrom and listRecentCostReportObjects. A limit that is not positive is 0.
-- The loop over the pages runs on fuel, and `none` says that it has run out.
pub mod Limit
use torvix.Prelude.{
  ltb, leb, ◌=ℕ◌, if◌then◌else◌, ltb→lt, lt→ltb, leb→le, le→leb, tests, Bool-cases, Option-cases,
  length, take, drop, keep, any, All, length-append, length-take, length-drop, length-keep,
  length-map, All-append, All-map, ℕ, zero, suc, ◌+◌, ◌-◌, ◌*◌, ◌/◌, ◌%◌, ◌^◌, ◌≤◌, ◌<◌, min,
  String, ◌≡◌, refl, sym, ap, subst, ◌∙◌, ◌≢◌, ◌↔◌, ◌⊎◌, inl, inr, Bool, true, false, not, ◌&&◌,
  ◌||◌, Option, none, some, List, [], ◌∷◌, map, arith, ◌==◌, eq_iff, eq_refl,
}
use torvix.Prelude.Keys.{
  contains, Distinct, contains-append, Distinct-snoc, Map, empty, insert, delete, is_some, get_or,
}
use torvix.Prelude.Clock.{
  Time, second, hour, day, zero_time, is_zero, before, after, add_days, truncate_day, Location, utc,
  weekday, unix_epoch,
}
use Prim.Native.String.{◌++◌, compare}
use Prim.Native.Nat.{Ordering}
use mathlib.Core.List.{◌++◌ as ◌⧺◌}
use torvix.Prelude.Exec.{Exec, pure, raise, ◌>>=◌}
use torvix.Prelude.Words.{has_prefix}
use torvix.Oci.Names.{cost_report_prefix, cost_report_start_name}
use torvix.Oci.Objects.{ObjectInfo, Client}
use torvix.Oci.Search.{find_cost_report_start_number}

-- How many objects a page may give.
abbrev pub page_limit : ℕ → ℕ → ℕ
page_limit limit listed = if ltb 0 limit && ltb (limit - listed) 1000 then limit - listed else 1000

abbrev pub is_full : ℕ → ℕ → Bool
is_full limit listed = ltb 0 limit && leb limit listed

module _ {W : Type 0} (client : Client W) (quote : String → String) (prefix : String)
    (limit : ℕ) where
  -- What follows a page; `more` goes on with the objects so far and the tokens seen.
  abbrev pub after_page :
      (String → List ObjectInfo → List String → Exec W (Option (List ObjectInfo)))
      → List ObjectInfo
      → List String
      → List ObjectInfo
      → String
      → Exec W (Option (List ObjectInfo))
  after_page more out seen [] next = pure (some out)
  after_page more out seen (o ∷ os) next =
      let listed = out ⧺ (o ∷ os) in
      if is_full limit (length listed) || next == ""
      then pure (some listed)
      else if contains next seen
      then raise ("list objects pagination repeated token " ++ quote next)
      else more next listed (next ∷ seen)

  -- The loop of listObjectsFrom.
  unfoldable pub list_pages :
      ℕ → String → List ObjectInfo → List String → Exec W (Option (List ObjectInfo))
  list_pages zero start out seen = pure none
  list_pages (suc k) start out seen =
      let n = page_limit limit (length out) in
      if n =ℕ 0 then pure (some out) else do
        (objects, next) ← client.list_objects_page prefix start n
        after_page (list_pages k) out seen objects next

  -- listObjectsFrom
  unfoldable pub list_objects_from : ℕ → String → Exec W (Option (List ObjectInfo))
  unfolding list_pages
  list_objects_from fuel start = list_pages fuel start [] []

-- Whether the sort puts an object before another: the later first, and of one time the larger name.
abbrev pub comes_first : ObjectInfo → ObjectInfo → Bool
comes_first a b =
    if a.last_modified =ℕ b.last_modified
    then elim (compare a.name b.name) [ Ordering.gt ↦ true | _ ↦ false ]
    else after a.last_modified b.last_modified

abbrev pub insert_object : ObjectInfo → List ObjectInfo → List ObjectInfo
insert_object o [] = o ∷ []
insert_object o (p ∷ ps) =
    let rest = insert_object o ps in if comes_first p o then p ∷ rest else o ∷ p ∷ ps

-- sort.SliceStable
unfoldable pub sort_objects : List ObjectInfo → List ObjectInfo
sort_objects [] = []
sort_objects (o ∷ os) = insert_object o (sort_objects os)

abbrev pub is_recent_object : Time → ObjectInfo → Bool
is_recent_object cutoff o =
    has_prefix o.name cost_report_prefix
    && not (not (is_zero o.last_modified) && before o.last_modified cutoff)

abbrev pub recent_objects : Time → Option (List ObjectInfo) → Option (List ObjectInfo)
unfolding sort_objects
recent_objects since none = none
recent_objects since (some os) =
    some (sort_objects (keep (λ o. is_recent_object (since - day) o) os))

abbrev start_of : Option ℕ → String
unfolding cost_report_start_name
start_of none = ""
start_of (some n) = cost_report_start_name n

-- listRecentCostReportObjects
unfoldable pub list_recent_cost_report_objects :
    {W : Type 0} → Client W → (String → String) → ℕ → ℕ → Time → Exec W (Option (List ObjectInfo))
unfolding find_cost_report_start_number list_objects_from start_of recent_objects
list_recent_cost_report_objects client quote fuel limit since = do
  number ← find_cost_report_start_number client since
  objects ← list_objects_from client quote cost_report_prefix limit fuel (start_of number)
  pure (recent_objects since objects)
