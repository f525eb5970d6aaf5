-- ===== src/Ingest/Tags.antt =====
-- Which tags a record gets: for every key the value of the last rule that matches.
use sobs.Prelude.{
  ◌≡◌, refl, ap, ◌∙◌, subst, inl, inr, Bool, true, false, ◌&&◌, Option, none, some, List, [], ◌∷◌,
  if◌then◌else◌,
}
use sobs.Text.{Text, lit, text_eq}
use sobs.Text.Laws.{text_eq-cases}
use sobs.Json.Objects.{text_eq_sym-false}
use sobs.Json.{Json, null, boolean, number, str, int, float, object, array}
use sobs.Ingest.{Tools, Subject, match_tag_rule, put_tag, add_match, match_rules}
use sobs.Ingest.Reading.{map_str}

unfoldable pub tag_of : Text → List (Text × Text) → Option Text
tag_of k [] = none
tag_of k (t ∷ tags) = let rest = tag_of k tags in if text_eq t.0 k then some t.1 else rest

-- The value of a rule for a key, when the rule matches.
module _ {F : Type 0} (tools : Tools F) (rt : Text) (r : Subject F) (k : Text) where
  unfoldable pub rule_tag : Json F → Option Text
  rule_tag rule = elim rule [
    | object o ↦
        if match_tag_rule tools o rt r && text_eq (map_str o (lit "tag_key")) k
        then some (map_str o (lit "tag_value"))
        else none
    | _ ↦ none
  ]

  -- The value of the last rule that matches and has the key.
  unfoldable pub last_match : List (Json F) → Option Text
  last_match [] = none
  last_match (rule ∷ rules) = elim (last_match rules) [ some v ↦ some v | none ↦ rule_tag rule ]

abbrev pub or_else : Option Text → Option Text → Option Text
or_else none d = d
or_else (some v) d = some v

if_twice {ℓ} :
    {A : Type ℓ} (b : Bool) (x y z : A)
    → (if b then x else z) ≡ (if b then x else if b then y else z)
if_twice true x y z = refl
if_twice false x y z = refl

tag_of-put_tag :
    (k k' v : Text) (tags : List (Text × Text))
    → tag_of k (put_tag k' v tags) ≡ (if text_eq k' k then some v else tag_of k tags)
unfolding tag_of put_tag
tag_of-put_tag k k' v [] = refl
tag_of-put_tag k k' v (t ∷ tags) = elim (text_eq-cases t.0 k') [
  | inl (e, p) ↦ rw e (
      subst
        (λ x.
          (if text_eq t.0 k then some v else tag_of k tags)
          ≡ (if text_eq x k then some v else if text_eq t.0 k then some t.1 else tag_of k tags))
        p (if_twice (text_eq t.0 k) (some v) (some t.1) (tag_of k tags)))
  | inr e ↦ elim (text_eq-cases t.0 k) [
    | inl (e1, p1) ↦
        rw e (rw e1 (rw (subst (λ x. text_eq k' x ≡ false) p1 (text_eq_sym-false t.0 k' e)) refl))
    | inr e1 ↦ rw e (rw e1 (tag_of-put_tag k k' v tags))
  ]
]

-- Every key stands once.
unfoldable pub IsOnce : List (Text × Text) → Type 0
IsOnce [] = Unit
IsOnce (t ∷ tags) = (tag_of t.0 tags ≡ none) × IsOnce tags

put_tag-IsOnce : (k v : Text) (tags : List (Text × Text)) → IsOnce tags → IsOnce (put_tag k v tags)
unfolding IsOnce put_tag tag_of
put_tag-IsOnce k v [] h = (refl, tt)
put_tag-IsOnce k v (t ∷ tags) h = elim (text_eq-cases t.0 k) [
  | inl (e, p) ↦ rw e (h.0, h.1)
  | inr e ↦ rw e (
    tag_of-put_tag t.0 k v tags ∙ (rw (text_eq_sym-false t.0 k e) h.0),
    put_tag-IsOnce k v tags h.1,
  )
]

module _ {F : Type 0} (tools : Tools F) (rt : Text) (r : Subject F) where
  put_if :
      (b : Bool) (k kr v : Text) (tags : List (Text × Text))
      → tag_of k (if b then put_tag kr v tags else tags)
        ≡ or_else (if b && text_eq kr k then some v else none) (tag_of k tags)
  put_if true k kr v tags = tag_of-put_tag k kr v tags ∙ by_test (text_eq kr k)
    where
      by_test :
          (t : Bool)
          → (if t then some v else tag_of k tags)
            ≡ or_else (if t then some v else none) (tag_of k tags)
      by_test true = refl
      by_test false = refl
  put_if false k kr v tags = refl

  tag_of-add_match :
      (k : Text) (rule : Json F) (tags : List (Text × Text))
      → tag_of k (add_match tools rt r rule tags)
        ≡ or_else (rule_tag tools rt r k rule) (tag_of k tags)
  unfolding add_match rule_tag
  tag_of-add_match k (object o) tags = put_if (match_tag_rule tools o rt r) k _ _ tags
  tag_of-add_match k null tags = refl
  tag_of-add_match k (boolean b) tags = refl
  tag_of-add_match k (number b) tags = refl
  tag_of-add_match k (str b) tags = refl
  tag_of-add_match k (int b) tags = refl
  tag_of-add_match k (float b) tags = refl
  tag_of-add_match k (array b) tags = refl

  or_else_assoc :
      (o : Option Text) (m d : Option Text)
      → or_else o (or_else m d) ≡ or_else (elim o [ some v ↦ some v | none ↦ m ]) d
  or_else_assoc none m d = refl
  or_else_assoc (some v) m d = refl

  match_rules-last_match :
      (k : Text) (tags : List (Text × Text)) (rules : List (Json F))
      → tag_of k (match_rules tools rt r tags rules)
        ≡ or_else (last_match tools rt r k rules) (tag_of k tags)
  unfolding match_rules last_match
  match_rules-last_match k tags [] = refl
  match_rules-last_match k tags (rule ∷ rules) =
      match_rules-last_match k (add_match tools rt r rule tags) rules
      ∙ ap (or_else (last_match tools rt r k rules)) (tag_of-add_match k rule tags)
      ∙ or_else_assoc (last_match tools rt r k rules) (rule_tag tools rt r k rule) (tag_of k tags)

  put_if-IsOnce :
      (b : Bool) (k v : Text) (tags : List (Text × Text))
      → IsOnce tags
      → IsOnce (if b then put_tag k v tags else tags)
  put_if-IsOnce true k v tags h = put_tag-IsOnce k v tags h
  put_if-IsOnce false k v tags h = h

  add_match-IsOnce :
      (rule : Json F) (tags : List (Text × Text))
      → IsOnce tags
      → IsOnce (add_match tools rt r rule tags)
  unfolding add_match
  add_match-IsOnce (object o) tags h = put_if-IsOnce (match_tag_rule tools o rt r) _ _ tags h
  add_match-IsOnce null tags h = h
  add_match-IsOnce (boolean b) tags h = h
  add_match-IsOnce (number b) tags h = h
  add_match-IsOnce (str b) tags h = h
  add_match-IsOnce (int b) tags h = h
  add_match-IsOnce (float b) tags h = h
  add_match-IsOnce (array b) tags h = h

  match_rules-IsOnce :
      (tags : List (Text × Text)) (rules : List (Json F))
      → IsOnce tags
      → IsOnce (match_rules tools rt r tags rules)
  unfolding match_rules
  match_rules-IsOnce tags [] h = h
  match_rules-IsOnce tags (rule ∷ rules) h =
      match_rules-IsOnce (add_match tools rt r rule tags) rules (add_match-IsOnce rule tags h)

-- The tags of a record: each key stands once, and a key has a tag exactly when a rule with it matches,
-- with the value of the last such rule.
pub match_rules-IsLast :
    {F : Type 0} (tools : Tools F) (rt : Text) (r : Subject F) (rules : List (Json F))
    → IsOnce (match_rules tools rt r [] rules)
      × ((k : Text) → tag_of k (match_rules tools rt r [] rules) ≡ last_match tools rt r k rules)
unfolding IsOnce tag_of
match_rules-IsLast tools rt r rules = (
  match_rules-IsOnce tools rt r [] rules tt,
  λ k. match_rules-last_match tools rt r k [] rules ∙ or_else_none (last_match tools rt r k rules),
)
  where
    or_else_none : (o : Option Text) → or_else o none ≡ o
    or_else_none none = refl
    or_else_none (some v) = refl
