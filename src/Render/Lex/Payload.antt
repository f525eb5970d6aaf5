-- ===== src/Render/Lex/Payload.antt =====
-- What stands between the marks of a written tag: its trimming, its dashes and its end.
use sobs.Prelude.{
  ℕ, ◌≡◌, refl, sym, ap, ◌∙◌, ◌≢◌, Bool, true, false, some, [], ◌∷◌, ◌++◌, append_assoc, arith,
  ◌==◌, length, is_nil,
}
use sobs.Text.{
  Text, text_eq, cut_prefix, has_prefix, cut_suffix, has_suffix, trim_left, trim_right, trim,
  is_space, trim_space, index,
}
use sobs.Text.Laws.{trim_left-trim_right}
use sobs.Render.Lex.{is_dash}
use sobs.Render.Lex.Print.{dash, payload, free_of}

is_nil-append : (s : Text) (c : ℕ) → is_nil (s ++ (c ∷ [])) ≡ false
is_nil-append [] c = refl
is_nil-append (d ∷ s) c = refl

trim_right-append_drop :
    (p : ℕ → Bool) (s : Text) (c : ℕ) → p c ≡ true → trim_right p (s ++ (c ∷ [])) ≡ trim_right p s
unfolding trim_right
trim_right-append_drop p [] c h = ground arith
trim_right-append_drop p (d ∷ s) c h = ground (arith, trim_right-append_drop p s c h)

trim_right-append_keep :
    (p : ℕ → Bool) (s : Text) (c : ℕ) → p c ≡ false → trim_right p (s ++ (c ∷ [])) ≡ s ++ (c ∷ [])
unfolding trim_right
trim_right-append_keep p [] c h = ground arith
trim_right-append_keep p (d ∷ s) c h =
    ground (arith, trim_right-append_keep p s c h, is_nil-append s c)

trim_right-append_both :
    (p : ℕ → Bool) (s : Text) (c d : ℕ)
    → p c ≡ false
    → p d ≡ true
    → trim_right p (s ++ (c ∷ d ∷ [])) ≡ s ++ (c ∷ [])
unfolding trim_right
trim_right-append_both p [] c d h h' = ground arith
trim_right-append_both p (e ∷ s) c d h h' =
    ground (arith, trim_right-append_both p s c d h h', is_nil-append s c)

-- A text between two blanks.
abbrev pub padded : Text → Text
padded s = 32 ∷ (s ++ (32 ∷ []))

pub trim_space-padded : (s : Text) → trim_space (padded s) ≡ trim_space s
unfolding trim_space trim trim_left is_space
trim_space-padded s =
    sym (trim_left-trim_right is_space (s ++ (32 ∷ [])))
    ∙ ap (trim_left is_space) (trim_right-append_drop is_space s 32 refl)
    ∙ trim_left-trim_right is_space s

pub trim-payload : (l : Bool) (s : Text) (r : Bool) → trim is_dash (payload l s r) ≡ padded s
unfolding trim trim_left
trim-payload true s true = trim_right-append_both is_dash (32 ∷ s) 32 45 refl refl
trim-payload true s false = trim_right-append_keep is_dash (32 ∷ s) 32 refl
trim-payload false s true = trim_right-append_both is_dash (32 ∷ s) 32 45 refl refl
trim-payload false s false = trim_right-append_keep is_dash (32 ∷ s) 32 refl

pub has_prefix-payload :
    (l : Bool) (s : Text) (r : Bool) → has_prefix (payload l s r) (b'-' ∷ []) ≡ l
unfolding has_prefix cut_prefix
has_prefix-payload true s r = refl
has_prefix-payload false s r = refl

text_eq-append : (s : Text) (c d e : ℕ) → text_eq (s ++ (c ∷ d ∷ [])) (e ∷ []) ≡ false
unfolding text_eq
text_eq-append [] c d e = ground arith
text_eq-append (x ∷ []) c d e = ground arith
text_eq-append (x ∷ y ∷ s) c d e = ground arith

has_suffix-append : (s : Text) (c d : ℕ) → has_suffix (s ++ (c ∷ [])) (d ∷ []) ≡ c == d
unfolding has_suffix cut_suffix text_eq
has_suffix-append [] c d = ground arith
has_suffix-append (x ∷ []) c d = ground (arith, has_suffix-append [] c d)
has_suffix-append (x ∷ y ∷ s) c d = ground (arith, has_suffix-append (y ∷ s) c d)

pub index-close :
    (a b : ℕ) (x r : Text)
    → free_of a b (x ++ (a ∷ [])) ≡ true
    → index (x ++ (a ∷ b ∷ r)) (a ∷ b ∷ []) ≡ some (length x)
unfolding index has_prefix cut_prefix free_of
index-close a b [] r h = ground arith
index-close a b (c ∷ []) r h = ground arith
index-close a b (c ∷ d ∷ x) r h = ground (arith, index-close a b (d ∷ x) r)

free_of-append :
    (a b c : ℕ) (x : Text) (y : Text)
    → b ≢ c
    → a ≢ c
    → free_of a b x ≡ true
    → free_of a b y ≡ true
    → free_of a b (x ++ (c ∷ y)) ≡ true
unfolding free_of
free_of-append a b c [] [] h h' hx hy = ground arith
free_of-append a b c [] (e ∷ y) h h' hx hy = ground arith
free_of-append a b c (d ∷ []) y h h' hx hy = ground (arith, free_of-append a b c [] y h h')
free_of-append a b c (d ∷ e ∷ x) y h h' hx hy = ground (arith, free_of-append a b c (e ∷ x) y h h')

has_suffix-append_both : (s : Text) (c d e : ℕ) → has_suffix (s ++ (c ∷ d ∷ [])) (e ∷ []) ≡ d == e
unfolding has_suffix cut_suffix text_eq
has_suffix-append_both [] c d e = ground arith
has_suffix-append_both (x ∷ []) c d e = ground (arith, has_suffix-append_both [] c d e)
has_suffix-append_both (x ∷ y ∷ s) c d e = ground (arith, has_suffix-append_both (y ∷ s) c d e)

pub has_suffix-payload :
    (l : Bool) (s : Text) (r : Bool) → has_suffix (payload l s r) (b'-' ∷ []) ≡ r
has_suffix-payload true s true = has_suffix-append_both (45 ∷ 32 ∷ s) 32 45 45
has_suffix-payload true s false = has_suffix-append (45 ∷ 32 ∷ s) 32 45
has_suffix-payload false s true = has_suffix-append_both (32 ∷ s) 32 45 45
has_suffix-payload false s false = has_suffix-append (32 ∷ s) 32 45

-- The text and what follows it, when the first dash is put aside.
free_of-body :
    (a : ℕ) (s : Text) (r : Bool)
    → a ≢ 32
    → a ≢ 45
    → free_of a b'}' s ≡ true
    → free_of a b'}' ((s ++ (32 ∷ dash r)) ++ (a ∷ [])) ≡ true
unfolding free_of
free_of-body a s true h h' hs =
    rw (append_assoc s (32 ∷ 45 ∷ []) (a ∷ []))
      (free_of-append a b'}' 32 s (45 ∷ a ∷ []) (omega arith) h hs (ground arith))
free_of-body a s false h h' hs =
    rw (append_assoc s (32 ∷ []) (a ∷ []))
      (free_of-append a b'}' 32 s (a ∷ []) (omega arith) h hs refl)

free_of-cons : (a b c : ℕ) (x : Text) → a ≢ c → free_of a b x ≡ true → free_of a b (c ∷ x) ≡ true
unfolding free_of
free_of-cons a b c [] h hx = refl
free_of-cons a b c (d ∷ x) h hx = ground arith

pub free_of-payload :
    (a : ℕ) (l : Bool) (s : Text) (r : Bool)
    → a ≢ 32
    → a ≢ 45
    → free_of a b'}' s ≡ true
    → free_of a b'}' (payload l s r ++ (a ∷ [])) ≡ true
free_of-payload a true s r h h' hs =
    free_of-cons a 125 45 _ h' (free_of-cons a 125 32 _ h (free_of-body a s r h h' hs))
free_of-payload a false s r h h' hs = free_of-cons a 125 32 _ h (free_of-body a s r h h' hs)
