-- ===== src/Uploads/Text.antt =====
-- The string operations that src/modules/uploads/uploads.service.ts uses, on lists of UTF-16 code units.
use beleqet_ecosystem_update.Base.{
  Text, ℕ, ◌==◌, ◌&&◌, ◌||◌, ◌≡◌, ◌≢◌, refl, ap, ◌∙◌, leb, not, map, if◌then◌else◌, Bool, true,
  false, List, [], ◌∷◌, ◌++◌, arith,
}

abbrev pub is_empty : {A : Type 0} → List A → Bool
is_empty [] = true
is_empty (_ ∷ _) = false

-- `every`.
abbrev pub all : (ℕ → Bool) → Text → Bool
all p [] = true
all p (c ∷ cs) = p c && all p cs

abbrev strip_start : (ℕ → Bool) → Text → Text
strip_start p [] = []
strip_start p (c ∷ cs) = if p c then strip_start p cs else c ∷ cs

abbrev strip_end : (ℕ → Bool) → Text → Text
strip_end p [] = []
strip_end p (c ∷ cs) = let rest = strip_end p cs in if p c && is_empty rest then [] else c ∷ rest

-- Both ends lose what passes.
unfoldable pub strip : (ℕ → Bool) → Text → Text
strip p t = strip_end p (strip_start p t)

abbrev pub space : ℕ
space = 32

abbrev pub slash : ℕ
slash = 47

abbrev pub backslash : ℕ
backslash = 92

abbrev pub dot : ℕ
dot = 46

abbrev pub percent : ℕ
percent = 37

-- The white space and line ends of ECMAScript that `trim` takes off.
unfoldable pub is_white : ℕ → Bool
is_white c =
    (leb 9 c && leb c 13)
    || c == space
    || c == 160
    || c == 5_760
    || (leb 8_192 c && leb c 8_202)
    || c == 8_232
    || c == 8_233
    || c == 8_239
    || c == 8_287
    || c == 12_288
    || c == 65_279

unfoldable pub trim : Text → Text
trim t = strip is_white t

abbrev to_slash : ℕ → ℕ
to_slash c = if c == backslash then slash else c

-- `replace(/\\/g, '/')`.
unfoldable pub unify_slashes : Text → Text
unify_slashes t = map to_slash t

abbrev pub is_slash : ℕ → Bool
is_slash c = c == slash

-- `replace(/^\/+|\/+$/g, '')`.
unfoldable pub strip_slashes : Text → Text
strip_slashes t = strip is_slash t

abbrev split_step : ℕ → ℕ → List Text → List Text
split_step sep c [] = (c ∷ []) ∷ []
split_step sep c (t ∷ ts) = if c == sep then [] ∷ t ∷ ts else (c ∷ t) ∷ ts

unfoldable pub split : ℕ → Text → List Text
split sep [] = [] ∷ []
split sep (c ∷ cs) = split_step sep c (split sep cs)

unfoldable pub join : ℕ → List Text → Text
join sep [] = []
join sep (t ∷ []) = t
join sep (t ∷ u ∷ ts) = t ++ (sep ∷ join sep (u ∷ ts))

pub split-plain : (sep : ℕ) (t : Text) → all (λ c. not (c == sep)) t ≡ true → split sep t ≡ t ∷ []
unfolding split
split-plain sep [] h = refl
split-plain sep (c ∷ cs) h = ground (arith, split-plain sep cs)

split_step-first : (sep : ℕ) (ts : List Text) → ts ≢ [] → split_step sep sep ts ≡ [] ∷ ts
split_step-first sep [] h = absurd (h refl)
split_step-first sep (t ∷ ts) h = ground arith

split-some : (sep : ℕ) (t : Text) → split sep t ≢ []
unfolding split
split-some sep [] e = cc
split-some sep (c ∷ cs) e = ground arith

-- The first part ends at the first separator.
pub split-part :
    (sep : ℕ) (t u : Text)
    → all (λ c. not (c == sep)) t ≡ true
    → split sep (t ++ (sep ∷ u)) ≡ t ∷ split sep u
unfolding split
split-part sep [] u h = split_step-first sep (split sep u) (split-some sep u)
split-part sep (c ∷ cs) u h = ground (arith, split-part sep cs u)

pub split-two :
    (sep : ℕ) (t u : Text)
    → all (λ c. not (c == sep)) t ≡ true
    → all (λ c. not (c == sep)) u ≡ true
    → split sep (t ++ (sep ∷ u)) ≡ t ∷ u ∷ []
split-two sep t u h k = rw (split-part sep t u h, split-plain sep u k) refl

strip_start-none : (p : ℕ → Bool) (t : Text) → all (λ c. not (p c)) t ≡ true → strip_start p t ≡ t
strip_start-none p [] h = refl
strip_start-none p (c ∷ cs) h = ground arith

strip_end-none : (p : ℕ → Bool) (t : Text) → all (λ c. not (p c)) t ≡ true → strip_end p t ≡ t
strip_end-none p [] h = refl
strip_end-none p (c ∷ cs) h = ground (arith, strip_end-none p cs)

is_empty-append : (t u : Text) → is_empty u ≡ false → is_empty (t ++ u) ≡ false
is_empty-append [] u h = h
is_empty-append (c ∷ cs) u h = refl

strip_end-append :
    (p : ℕ → Bool) (t u : Text)
    → is_empty (strip_end p u) ≡ false
    → strip_end p (t ++ u) ≡ t ++ strip_end p u
strip_end-append p [] u h = refl
strip_end-append p (c ∷ cs) u h =
    let rest = strip_end-append p cs u h in
    let some_left : is_empty (strip_end p (cs ++ u)) ≡ false =
      ap is_empty rest ∙ is_empty-append cs (strip_end p u) h in
    ground arith

-- Where nothing passes, nothing is lost.
pub strip-none : (p : ℕ → Bool) (t : Text) → all (λ c. not (p c)) t ≡ true → strip p t ≡ t
unfolding strip
strip-none p t h = rw (strip_start-none p t h) (strip_end-none p t h)

pub unify_slashes-none : (t : Text) → all (λ c. not (c == backslash)) t ≡ true → unify_slashes t ≡ t
unfolding unify_slashes
unify_slashes-none [] h = refl
unify_slashes-none (c ∷ cs) h = ground (arith, unify_slashes-none cs)

pub all-append : (p : ℕ → Bool) (t u : Text) → all p (t ++ u) ≡ (all p t && all p u)
all-append p [] u = refl
all-append p (c ∷ cs) u = ground (arith, all-append p cs u)

pub all-imp :
    (p q : ℕ → Bool) (t : Text)
    → ((c : ℕ) → p c ≡ true → q c ≡ true)
    → all p t ≡ true
    → all q t ≡ true
all-imp p q [] f h = refl
all-imp p q (c ∷ cs) f h = let one = f c in ground (arith, all-imp p q cs f)

-- A text that begins and ends with units that stay, keeps all.
pub strip-ends :
    (p : ℕ → Bool) (c d : ℕ) (t u : Text)
    → p c ≡ false
    → is_empty u ≡ false
    → all (λ e. not (p e)) u ≡ true
    → strip p ((c ∷ t) ++ (d ∷ u)) ≡ (c ∷ t) ++ (d ∷ u)
unfolding strip
strip-ends p c d t u h some_left stay =
    let last = strip_end-none p u stay in
    let some_last : is_empty (strip_end p u) ≡ false = ap is_empty last ∙ some_left in
    let end : strip_end p (d ∷ u) ≡ d ∷ u = ground arith in
    let whole = strip_end-append p (c ∷ t) (d ∷ u) (ap is_empty end) in
    let first : strip_start p ((c ∷ t) ++ (d ∷ u)) ≡ (c ∷ t) ++ (d ∷ u) = ground arith in
    rw first (whole ∙ ap (λ (x : Text). (c ∷ t) ++ x) end)
