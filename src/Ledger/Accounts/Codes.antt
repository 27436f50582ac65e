-- ===== src/Ledger/Accounts/Codes.antt =====
-- Account codes (ledger/internal/accounts/code.go): splitting and joining at the colons.
use usdt_settlement_corridor.Base.{
  ℕ, ◌≡◌, ◌≢◌, refl, ap, sym, ◌∙◌, Bool, true, false, List, [], ◌∷◌, ◌++◌, ◌==◌, if◌then◌else◌,
  arith, All, Bool-cases, inl, inr,
}
use usdt_settlement_corridor.Base.Text.{Text, is_empty}
use usdt_settlement_corridor.Ledger.Error.{ok}
use usdt_settlement_corridor.Ledger.Accounts.{Code, colon, push_head, split, any_empty, parse_code}

-- The parts with the separator between them.
unfoldable pub join : ℕ → List Text → Text
join sep [] = []
join sep (p ∷ []) = p
join sep (p ∷ q ∷ ps) = p ++ (sep ∷ join sep (q ∷ ps))

-- A text with no separator in it.
unfoldable pub free_of : ℕ → Text → Bool
free_of sep [] = true
free_of sep (c ∷ s) = if c == sep then false else free_of sep s

-- A part of a code: not empty, and with no colon in it.
abbrev pub IsPart : Text → Type 0
IsPart p = (is_empty p ≡ false) × (free_of colon p ≡ true)

split-cons : (sep : ℕ) (s : Text) → (p : Text) × (ps : List Text) × (split sep s ≡ p ∷ ps)
unfolding split
split-cons sep [] = ([], [], refl)
split-cons sep (c ∷ s) =
    let (p, ps, e) = split-cons sep s in
    elim (Bool-cases (c == sep)) [
      | inl t ↦ ([], p ∷ ps, ground arith)
      | inr f ↦ (c ∷ p, ps, ground arith)
    ]

join-split_nil : (sep : ℕ) → join sep ([] ∷ []) ≡ []
unfolding join
join-split_nil sep = refl

join-push_head :
    (sep c : ℕ) (p : Text) (ps : List Text) → join sep ((c ∷ p) ∷ ps) ≡ c ∷ join sep (p ∷ ps)
unfolding join
join-push_head sep c p [] = refl
join-push_head sep c p (q ∷ ps) = refl

join-empty_head :
    (sep : ℕ) (p : Text) (ps : List Text) → join sep ([] ∷ p ∷ ps) ≡ sep ∷ join sep (p ∷ ps)
unfolding join
join-empty_head sep p ps = refl

-- Nothing is lost by splitting.
join-split : (sep : ℕ) (s : Text) → join sep (split sep s) ≡ s
unfolding split
join-split sep [] = join-split_nil sep
join-split sep (c ∷ s) =
    let (p, ps, e) = split-cons sep s in
    ground (arith, join-split sep s, e, join-push_head sep c p ps, join-empty_head sep p ps)

split_free : (sep : ℕ) (p : Text) → free_of sep p ≡ true → split sep p ≡ p ∷ []
unfolding split free_of
split_free sep [] h = refl
split_free sep (c ∷ p) h = ground (arith, split_free sep p)

split-append :
    (sep : ℕ) (p t : Text) → free_of sep p ≡ true → split sep (p ++ (sep ∷ t)) ≡ p ∷ split sep t
unfolding split free_of
split-append sep [] t h = ground arith
split-append sep (c ∷ p) t h = ground (arith, split-append sep p t)

split-join :
    (p : Text) (ps : List Text) → All IsPart (p ∷ ps) → split colon (join colon (p ∷ ps)) ≡ p ∷ ps
unfolding join
split-join p [] h = split_free colon p h.0.1
split-join p (q ∷ ps) h =
    split-append colon p (join colon (q ∷ ps)) h.0.1 ∙ ap (λ t. p ∷ t) (split-join q ps h.1)

any_empty_parts : (ps : List Text) → All IsPart ps → any_empty ps ≡ false
unfolding any_empty
any_empty_parts [] h = refl
any_empty_parts (p ∷ ps) h = ground (arith, any_empty_parts ps h.1)

free_push :
    (sep c : ℕ) (ps : List Text)
    → (c == sep) ≡ false
    → All (λ p. free_of sep p ≡ true) ps
    → All (λ p. free_of sep p ≡ true) (push_head c ps)
unfolding free_of
free_push sep c [] h a = (ground arith, tt)
free_push sep c (p ∷ ps) h a = (ground arith, a.1)

free_nil : (sep : ℕ) → free_of sep [] ≡ true
unfolding free_of
free_nil sep = refl

split_parts_free : (sep : ℕ) (s : Text) → All (λ p. free_of sep p ≡ true) (split sep s)
unfolding split
split_parts_free sep [] = (free_nil sep, tt)
split_parts_free sep (c ∷ s) = elim (Bool-cases (c == sep)) [
  | inl t ↦ rw (t, split) (free_nil sep, split_parts_free sep s)
  | inr f ↦ rw (f, split) (free_push sep c (split sep s) f (split_parts_free sep s))
]

IsPart-of :
    (ps : List Text) → any_empty ps ≡ false → All (λ p. free_of colon p ≡ true) ps → All IsPart ps
unfolding any_empty
IsPart-of [] h f = tt
IsPart-of (p ∷ ps) h f = ((ground arith, f.0), IsPart-of ps (ground arith) f.1)

join_nonempty : (p q : Text) (ps : List Text) → is_empty (join colon (p ∷ q ∷ ps)) ≡ false
unfolding join
join_nonempty [] q ps = refl
join_nonempty (c ∷ p) q ps = refl

-- A code built from two or more parts, each of them not empty and free of colons, is parsed into
-- those parts.
pub parse_code-join :
    (category first : Text) (rest : List Text)
    → All IsPart (category ∷ first ∷ rest)
    → let raw = join colon (category ∷ first ∷ rest) in
      parse_code raw ≡ ok (record { raw = raw; category = category; segments = first ∷ rest })
unfolding parse_code
parse_code-join category first rest h = ground (
  arith,
  split-join category (first ∷ rest) h,
  any_empty_parts (category ∷ first ∷ rest) h,
  join_nonempty category first rest,
)

parsed_parts :
    (s : Text) (c : Code) (p : Text) (ps : List Text)
    → split colon s ≡ p ∷ ps
    → parse_code s ≡ ok c
    → (c ≡ record { raw = s; category = p; segments = ps })
      × (any_empty (p ∷ ps) ≡ false)
      × (ps ≢ [])
unfolding parse_code
parsed_parts s c p [] e h = absurd (ground arith)
parsed_parts s c p (q ∷ ps) e h = (ground arith, ground arith, λ n. cc)

-- Whatever ParseCode accepts is the code of two or more such parts, which are those that it gives.
pub parse_code_sound :
    (s : Text) (c : Code)
    → parse_code s ≡ ok c
    → (c.raw ≡ s)
      × (join colon (c.category ∷ c.segments) ≡ s)
      × All IsPart (c.category ∷ c.segments)
      × (c.segments ≢ [])
parse_code_sound s c h =
    let (p, ps, e) = split-cons colon s in
    let (made, whole, more) = parsed_parts s c p ps e h in
    rw made (
      refl,
      ap (join colon) (sym e) ∙ join-split colon s,
      IsPart-of (p ∷ ps) whole (rw e at (split_parts_free colon s)),
      more,
    )
