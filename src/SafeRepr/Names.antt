-- ===== src/SafeRepr/Names.antt =====
-- src/pidprobe/_saferepr.py: `SECRET_NAME_PATTERNS` and `is_secret_name`, over code points.
use pidprobe.Base.{
  ℕ, ◌+◌, ◌≡◌, refl, ap, sym, ◌∙◌, String, ◌<>◌, Bool, true, false, not, ◌&&◌, ◌||◌, List, [], ◌∷◌,
  ◌++◌, ltb, leb, ◌==◌, if◌then◌else◌, arith,
}
use mathlib.Core.List.{append_assoc}
use pidprobe.Base.Text.{codes, codes-append}

-- `str.lower` and `str.isalnum` outside ASCII are the interpreter's tables. (`str.lower` looks at a
-- character's surroundings in one case, the final sigma, and both answers are letters outside ASCII.)
pub record Unicode : Type 0 where
  pub lower_other : ℕ → List ℕ
  pub is_alnum_other : ℕ → Bool

abbrev pub secret_name_patterns : List String
secret_name_patterns =
    "password" ∷ "passwd" ∷ "passphrase" ∷ "pwd" ∷ "secret" ∷ "token" ∷ "apikey" ∷ "accesskey"
    ∷ "privatekey" ∷ "credential" ∷ "authorization" ∷ []

abbrev between : ℕ → ℕ → ℕ → Bool
between lo hi n = leb lo n && leb n hi

-- `pattern in text`, for code points
begins : List ℕ → List ℕ → Bool
begins [] ys = true
begins (x ∷ xs) [] = false
begins (x ∷ xs) (y ∷ ys) = x == y && begins xs ys

has_infix : List ℕ → List ℕ → Bool
unfolding begins
has_infix xs [] = begins xs []
has_infix xs (y ∷ ys) = begins xs (y ∷ ys) || has_infix xs ys

module _ (u : Unicode) where
  -- `char.isalnum()`
  pub is_alnum : ℕ → Bool
  is_alnum n =
      if ltb n 128
      then between b'0' b'9' n || between b'A' b'Z' n || between b'a' b'z' n
      else u.is_alnum_other n

  -- `char.lower()`
  lower : ℕ → List ℕ
  lower n = if ltb n 128 then (if between b'A' b'Z' n then n + 32 else n) ∷ [] else u.lower_other n

  keep_alnum : List ℕ → List ℕ
  keep_alnum [] = []
  keep_alnum (n ∷ ns) = let rest = keep_alnum ns in if is_alnum n then n ∷ rest else rest

  -- `"".join(char for char in name.lower() if char.isalnum())`
  normalized : List ℕ → List ℕ
  normalized [] = []
  normalized (n ∷ ns) = keep_alnum (lower n) ++ normalized ns

  matches_any : List String → List ℕ → Bool
  matches_any [] ns = false
  matches_any (p ∷ ps) ns = has_infix (codes p) ns || matches_any ps ns

  unfoldable pub is_secret_name : String → Bool
  unfolding is_alnum lower keep_alnum normalized matches_any has_infix
  is_secret_name name = matches_any secret_name_patterns (normalized (codes name))

  normalized-append : (xs ys : List ℕ) → normalized (xs ++ ys) ≡ normalized xs ++ normalized ys
  unfolding normalized
  normalized-append [] ys = refl
  normalized-append (x ∷ xs) ys =
      rw (normalized-append xs ys)
        (sym (append_assoc (keep_alnum (lower x)) (normalized xs) (normalized ys)))

begins-append : (xs ys zs : List ℕ) → begins xs ys ≡ true → begins xs (ys ++ zs) ≡ true
unfolding begins
begins-append [] ys zs h = refl
begins-append (x ∷ xs) [] zs h = cc
begins-append (x ∷ xs) (y ∷ ys) zs h = ground (arith, begins-append xs ys zs)

has_infix-append_right :
    (xs ys zs : List ℕ) → has_infix xs ys ≡ true → has_infix xs (ys ++ zs) ≡ true
unfolding has_infix
has_infix-append_right [] [] [] h = refl
has_infix-append_right [] [] (z ∷ zs) h = refl
has_infix-append_right (x ∷ xs) [] zs h = cc
has_infix-append_right xs (y ∷ ys) zs h =
    ground (arith, begins-append xs (y ∷ ys) zs, has_infix-append_right xs ys zs)

has_infix-append_left :
    (xs ys zs : List ℕ) → has_infix xs zs ≡ true → has_infix xs (ys ++ zs) ≡ true
unfolding has_infix
has_infix-append_left xs [] zs h = h
has_infix-append_left xs (y ∷ ys) zs h = ground (arith, has_infix-append_left xs ys zs)

matches_any-append :
    (u : Unicode) (ps : List String) (xs ys zs : List ℕ)
    → matches_any u ps ys ≡ true
    → matches_any u ps (xs ++ (ys ++ zs)) ≡ true
unfolding matches_any
matches_any-append u [] xs ys zs h = h
matches_any-append u (p ∷ ps) xs ys zs h = ground (
  arith,
  has_infix-append_right (codes p) ys zs,
  has_infix-append_left (codes p) xs (ys ++ zs),
  matches_any-append u ps xs ys zs,
)

-- A name that holds a secret-like name anywhere inside is itself secret-like.
pub is_secret_name-append :
    (u : Unicode) (before name after : String)
    → is_secret_name u name ≡ true
    → is_secret_name u (before <> (name <> after)) ≡ true
unfolding is_secret_name
is_secret_name-append u before name after h =
    simp (codes-append, normalized-append)
      (matches_any-append u secret_name_patterns (normalized u (codes before))
        (normalized u (codes name)) (normalized u (codes after)) h)

-- A name without its ASCII punctuation, in lower case: what two spellings of a name share.
is_mark : ℕ → Bool
is_mark n = ltb n 128 && not (between b'0' b'9' n || between b'A' b'Z' n || between b'a' b'z' n)

fold_case : ℕ → ℕ
fold_case n = if between b'A' b'Z' n then n + 32 else n

unfoldable pub skeleton : List ℕ → List ℕ
unfolding is_mark fold_case
skeleton [] = []
skeleton (n ∷ ns) = let rest = skeleton ns in if is_mark n then rest else fold_case n ∷ rest

kept-fold_case :
    (u : Unicode) (n : ℕ) → keep_alnum u (lower u (fold_case n)) ≡ keep_alnum u (lower u n)
unfolding keep_alnum lower fold_case is_alnum
kept-fold_case u n = ground arith

kept-mark : (u : Unicode) (n : ℕ) → is_mark n ≡ true → keep_alnum u (lower u n) ≡ []
unfolding keep_alnum lower is_mark is_alnum
kept-mark u n h = ground arith

normalized-skeleton : (u : Unicode) (ns : List ℕ) → normalized u (skeleton ns) ≡ normalized u ns
unfolding skeleton normalized
normalized-skeleton u [] = refl
normalized-skeleton u (n ∷ ns) =
    ground (arith, kept-fold_case u n, kept-mark u n, normalized-skeleton u ns)

-- Case and punctuation never decide: names that agree without them are secret-like together.
pub is_secret_name-skeleton :
    (u : Unicode) (a b : String)
    → skeleton (codes a) ≡ skeleton (codes b)
    → is_secret_name u a ≡ is_secret_name u b
unfolding is_secret_name
is_secret_name-skeleton u a b h =
    ap (matches_any u secret_name_patterns) (
      sym (normalized-skeleton u (codes a)) ∙ ap (normalized u) h ∙ normalized-skeleton u (codes b))
