-- ===== src/Waste/Rules/Attachments.antt =====
-- What the rules find among all the relationships, without the maps that the source builds of them.
use torvix.Prelude.{
  ltb, if◌then◌else◌, keep, any, String, ◌≡◌, refl, ◌∙◌, Bool, true, false, not, ◌&&◌, ◌||◌, List,
  [], ◌∷◌, ◌++◌, arith, ◌==◌,
}
use torvix.Prelude.Keys.{Map}
use torvix.Prelude.Float64.{Float64}
use torvix.Waste.Types.{Config, Resource, Relationship, CostSignal}
use torvix.Waste.Signals.{relationships_by_source, relationships_by_target, count_relationships}
use torvix.Waste.Stopped.{Attached, attached_storage, is_attachment, counts, add_signal}
use torvix.Waste.Catalog.{signal_at}

-- Whether a resource has a relationship of the kind, in which it is the source.
abbrev pub is_source_of : String → String → Relationship → Bool
is_source_of id kind rel = rel.source_resource_id == id && rel.relationship_type == kind

-- The count over the relationships of a source is positive when one of all relationships is of
-- the source and the kind.
pub count_relationships-source :
    (rels : List Relationship) (id kind : String)
    → ltb 0 (count_relationships (relationships_by_source rels id) kind)
      ≡ any (is_source_of id kind) rels
unfolding count_relationships relationships_by_source
count_relationships-source [] id kind = refl
count_relationships-source (rel ∷ rels) id kind =
    ground (arith, count_relationships-source rels id kind)

any-keep :
    {A : Type 0} (p q : A → Bool) (xs : List A) → any q (keep p xs) ≡ any (λ x. p x && q x) xs
any-keep p q [] = refl
any-keep p q (x ∷ xs) = ground (arith, any-keep p q xs)

abbrev pub is_empty : {A : Type 0} → List A → Bool
is_empty [] = true
is_empty (x ∷ xs) = false

snoc-is_empty : (xs : List String) (x : String) → is_empty (xs ++ x ∷ []) ≡ false
snoc-is_empty [] x = refl
snoc-is_empty (y ∷ ys) x = refl

and_not : (a b c d : Bool) → a ≡ (b && not c) → (a && not d) ≡ (b && not (c || d))
and_not a b c d e = ground arith

module _ {F : Type 0} ⦃fl : Float64 F⦄ where
  -- Whether a relationship attaches storage that is looked at.
  abbrev pub adds_storage : Config F → Map Resource → Relationship → Bool
  adds_storage cfg resources rel =
      is_attachment rel && counts (resources rel.source_resource_id) cfg

  -- Whether it attaches that to the target.
  abbrev pub is_storage_of : Config F → Map Resource → String → Relationship → Bool
  is_storage_of cfg resources id rel =
      rel.target_resource_id == id && adds_storage cfg resources rel

  module _ (cfg : Config F) (costs : Map (CostSignal F)) (resources : Map Resource) where
    abbrev with_storage : Relationship → Attached F → Attached F
    with_storage rel a =
        let source = rel.source_resource_id in
        if adds_storage cfg resources rel then add_signal a source (signal_at costs source) else a

    with_storage-is_empty :
        (rel : Relationship) (a : Attached F)
        → is_empty (with_storage rel a).storage
          ≡ (is_empty a.storage && not (adds_storage cfg resources rel))
    with_storage-is_empty rel a =
        elim (adds_storage cfg resources rel)
          as (λ b.
            is_empty
              (if b
                then add_signal a rel.source_resource_id (signal_at costs rel.source_resource_id)
                else a).storage
            ≡ (is_empty a.storage && not b)) [
              | true ↦ snoc-is_empty a.storage rel.source_resource_id ∙ ground arith
              | false ↦ ground arith
            ]

    attached_storage-any :
        (rels : List Relationship) (a : Attached F)
        → is_empty (attached_storage cfg costs resources rels a).storage
          ≡ (is_empty a.storage && not (any (adds_storage cfg resources) rels))
    unfolding attached_storage
    attached_storage-any [] a = ground arith
    attached_storage-any (rel ∷ rels) a =
        attached_storage-any rels (with_storage rel a)
        ∙ and_not _ _ _ _ (with_storage-is_empty rel a)

    -- Storage is gathered for a target when there was some before, or a relationship attaches some.
    pub attached_storage_lem :
        (id : String) (rels : List Relationship) (a : Attached F)
        → is_empty
            (attached_storage cfg costs resources (relationships_by_target rels id) a).storage
          ≡ (is_empty a.storage && not (any (is_storage_of cfg resources id) rels))
    unfolding relationships_by_target
    attached_storage_lem id rels a =
        attached_storage-any _ a
        ∙ rw (any-keep (λ r. r.target_resource_id == id) (adds_storage cfg resources) rels) refl
