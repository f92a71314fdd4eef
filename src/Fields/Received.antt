-- ===== src/Fields/Received.antt =====
-- The map of fields against the sequence in which they came.
use proxy_verifier.Base.{Bytes, List, [], ◌∷◌, ◌++◌, ◌≡◌, refl, ◌∙◌, arith, if◌then◌else◌}
use proxy_verifier.Fields.Defs.{HttpFields, no_fields, add_field, add_fields}
use proxy_verifier.Multimap.Laws.{IsSorted, emplace-IsSorted, equal_range-emplace}
use proxy_verifier.Multimap.Ops.{Multimap, equal_range, equivalent}
use proxy_verifier.Swoc.{TextOps, TextLaws}

-- The fields of one name, up to case, as they came.
unfoldable pub received : TextOps → Bytes → List (Bytes × Bytes) → List (Bytes × Bytes)
received ops name [] = []
received ops name ((j, v) ∷ rest) =
    if equivalent ops j name then (j, v) ∷ received ops name rest else received ops name rest

pub record IsConsistent (ops : TextOps) (h : HttpFields) : Type 0 where
  pub sorted : IsSorted ops h.fields
  pub ordered : (name : Bytes) → equal_range ops name h.fields ≡ received ops name h.fields_sequence

pub no_fields-IsConsistent : (ops : TextOps) → IsConsistent ops no_fields
unfolding equal_range received
no_fields-IsConsistent ops = record { sorted = tt; ordered = λ name. refl }

received-append :
    (ops : TextOps) (name : Bytes) (xs ys : List (Bytes × Bytes))
    → received ops name (xs ++ ys) ≡ received ops name xs ++ received ops name ys
unfolding received
received-append ops name [] ys = refl
received-append ops name ((j, v) ∷ xs) ys = ground (arith, received-append ops name xs ys)

module _ {ops : TextOps} (laws : TextLaws ops) where
  -- A field that is added is found behind the earlier ones of its name, and the others stay.
  pub add_field-IsConsistent :
      (h : HttpFields) (name value : Bytes)
      → IsConsistent ops h
      → IsConsistent ops (add_field ops h name value)
  unfolding add_field
  add_field-IsConsistent h name value c = record {
    sorted = emplace-IsSorted laws name value h.fields c.sorted;
    ordered = λ j.
        equal_range-emplace laws j name value h.fields c.sorted
        ∙ rw (c.ordered j, received-append ops j h.fields_sequence ((name, value) ∷ []))
            (unfold received in refl);
  }

  pub add_fields-IsConsistent :
      (h : HttpFields) (seq : List (Bytes × Bytes))
      → IsConsistent ops h
      → IsConsistent ops (add_fields ops h seq)
  unfolding add_fields
  add_fields-IsConsistent h [] c = c
  add_fields-IsConsistent h ((name, value) ∷ seq) c =
      add_fields-IsConsistent (add_field ops h name value) seq
        (add_field-IsConsistent h name value c)
