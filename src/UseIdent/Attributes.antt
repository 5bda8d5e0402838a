-- ===== src/UseIdent/Attributes.antt =====
-- use_ident.cpp, withAttr and hasComponent.
use drumlin.Prelude.{
  ◌≡◌, refl, Bool, ◌||◌, List, [], ◌∷◌, ◌++◌, map, arith, take, some_of, All, Bytes, eq_bytes,
  find_from, nat_eq, bytes_eq,
}
use drumlin.StringList.{AttributeList}
use drumlin.StringList.Names.{pair_item}
use drumlin.StringList.Attributes.{push_pairs-map, item_of, IsPlain}
use drumlin.UseIdent.{UseIdent, with_attr, has_component}

some_of-append {ℓ} :
    {A : Type ℓ} (p : A → Bool) (xs ys : List A)
    → some_of p (xs ++ ys) ≡ (some_of p xs || some_of p ys)
some_of-append p [] ys = refl
some_of-append p (x ∷ xs) ys = ground (arith, some_of-append p xs ys)

-- A name is one of the pairs' names.
abbrev pub is_name : Bytes → AttributeList → Bool
is_name name attrs = some_of (λ a. eq_bytes name a.0) attrs

abbrev component_of : Bytes → Bytes → Bool
component_of name attribute = eq_bytes name (take (find_from 0 b'=' attribute) attribute)

components-map :
    (name : Bytes) (attrs : AttributeList)
    → All IsPlain attrs
    → some_of (component_of name) (map item_of attrs) ≡ is_name name attrs
components-map name [] h = refl
components-map name ((k, v) ∷ attrs) h =
    let (_, front, _) = pair_item k v h.0.1 h.0.0 in rw (front, components-map name attrs h.1)

-- An identity has a component after withAttr exactly if it had it before or one of the attributes has
-- that name, if the attributes' names hold no '=' and their items are shorter than `npos`.
pub has_component-with_attr :
    (ident : UseIdent) (name : Bytes) (attrs : AttributeList)
    → All IsPlain attrs
    → has_component (with_attr ident attrs) name ≡ (has_component ident name || is_name name attrs)
unfolding has_component with_attr
has_component-with_attr ident name attrs h = rw (
  push_pairs-map ident.specification attrs,
  some_of-append (component_of name) ident.specification (map item_of attrs),
  components-map name attrs h,
)
