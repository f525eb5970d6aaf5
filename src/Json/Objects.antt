-- ===== src/Json/Objects.antt =====
-- What Object.Set and Object.Get promise each other.
use sobs.Prelude.{◌≡◌, refl, sym, inl, inr, false, some, [], ◌∷◌, ◌++◌, arith, if◌then◌else◌}
use sobs.Text.{Text, text_eq, member}
use sobs.Text.Laws.{text_eq_iff, text_eq_refl, text_eq-cases}
use sobs.Json.{no_fields, field, field, Json, Fields, set, get, keys}

-- What `set` does to the reading of the keys and to their order.
pub record SetsKey {F : Type 0} (o : Fields F) (k : Text) (v : Json F) : Type 0 where
  pub same : get (set o k v) k ≡ some v
  pub others : (k' : Text) → text_eq k' k ≡ false → get (set o k v) k' ≡ get o k'
  pub order : keys (set o k v) ≡ (if member k (keys o) then keys o else keys o ++ k ∷ [])

pub text_eq_sym-false : (s t : Text) → text_eq s t ≡ false → text_eq t s ≡ false
text_eq_sym-false s t h = elim (text_eq-cases t s) [
  | inl (e, p) ↦ absurd (ground (arith, (text_eq_iff s t).1 (sym p)))
  | inr e ↦ e
]

get-set : {F : Type 0} (o : Fields F) (k : Text) (v : Json F) → get (set o k v) k ≡ some v
unfolding get set
get-set no_fields k v = ground (arith, text_eq_refl k)
get-set (field k' v' o) k v = ground (arith, get-set o k v)

get-set_other :
    {F : Type 0} (o : Fields F) (k : Text) (v : Json F) (k' : Text)
    → text_eq k k' ≡ false
    → get (set o k v) k' ≡ get o k'
unfolding get set
get-set_other no_fields k v k' h = ground arith
get-set_other (field x y o) k v k' h = elim (text_eq-cases x k) [
  | inl (e, p) ↦ ground (arith, p, h, e)
  | inr e ↦ ground (arith, get-set_other o k v k' h, e)
]

keys-set :
    {F : Type 0} (o : Fields F) (k : Text) (v : Json F)
    → keys (set o k v) ≡ (if member k (keys o) then keys o else keys o ++ k ∷ [])
unfolding keys set member
keys-set no_fields k v = refl
keys-set (field x y o) k v = elim (text_eq-cases x k) [
  | inl (e, p) ↦ ground (arith, (text_eq_iff k x).1 (sym p), e)
  | inr e ↦ ground (arith, keys-set o k v, e, text_eq_sym-false x k e)
]

-- After a key is set it reads back as it was set and every other key reads as before; the keys keep
-- their order, where a new key goes to the end.
pub set-SetsKey : {F : Type 0} (o : Fields F) (k : Text) (v : Json F) → SetsKey o k v
set-SetsKey o k v = record {
  same = get-set o k v;
  others = λ k' h. get-set_other o k v k' (text_eq_sym-false k' k h);
  order = keys-set o k v;
}
