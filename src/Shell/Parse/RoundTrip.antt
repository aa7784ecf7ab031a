-- ===== src/Shell/Parse/RoundTrip.antt =====
-- Command lines that are written out of words come back as these words.
use snu_projects.Base.{
  ℕ, zero, suc, ◌<◌, ◌≤◌, ◌≡◌, refl, sym, ap, ◌∙◌, Bool, true, false, ◌||◌, List, [], ◌∷◌, ◌++◌,
  map, none, some, arith, ltb, not, ◌&&◌, ◌+◌, Bool-cases, inl, inr, if◌then◌else◌, ◌==◌, length,
  length-append, replicate,
}
use snu_projects.Shell.Parse.{
  space, quote, skip_spaces, prepend, cut_at, next_word, arguments, space_last, background,
  parseline, collect, starts_with, ampersand, max_args, max_line, keep, fits, with_background,
}

-- Does the character occur?
abbrev pub occurs : ℕ → List ℕ → Bool
occurs c [] = false
occurs c (d ∷ word) = (d == c) || occurs c word

-- An argument as it is typed: as it stands, or between quotes.
pub data Word : Type 0 where
  plain quoted : List ℕ → Word

abbrev pub text : Word → List ℕ
text (plain word) = word
text (quoted word) = word

-- A plain word is not empty, has no space and does not begin with a quote; a quoted one has no
-- quote.
abbrev pub IsWord : Word → Type 0
IsWord (plain []) = ⊥
IsWord (plain (c ∷ word)) = ((c == quote) ≡ false) × (occurs space (c ∷ word) ≡ false)
IsWord (quoted word) = occurs quote word ≡ false

-- The words, each with `end` behind it.
abbrev pub typed : Word → List ℕ
typed (plain word) = word
typed (quoted word) = quote ∷ (word ++ (quote ∷ []))

-- The line with a space behind each word.
abbrev pub spaced : List Word → List ℕ
spaced [] = []
spaced (w ∷ ws) = typed w ++ (space ∷ spaced ws)

abbrev pub AllWords : List Word → Type 0
AllWords [] = Unit {0}
AllWords (w ∷ ws) = IsWord w × AllWords ws

cut_at-append :
    (c : ℕ) (word rest : List ℕ)
    → occurs c word ≡ false
    → cut_at c (word ++ (c ∷ rest)) ≡ some (word, rest)
unfolding cut_at prepend
cut_at-append c [] rest o = ground arith
cut_at-append c (d ∷ word) rest o = ground (arith, cut_at-append c word rest)

skip_spaces-plain : (c : ℕ) (buf : List ℕ) → (c == space) ≡ false → skip_spaces (c ∷ buf) ≡ c ∷ buf
unfolding skip_spaces
skip_spaces-plain c buf o = ground arith

next_word-plain :
    (c : ℕ) (buf : List ℕ) → (c == quote) ≡ false → next_word (c ∷ buf) ≡ cut_at space (c ∷ buf)
unfolding next_word
next_word-plain c buf o = ground arith

next_word-quoted : (buf : List ℕ) → next_word (quote ∷ buf) ≡ cut_at quote buf
unfolding next_word
next_word-quoted buf = refl

skip_spaces-space : (buf : List ℕ) → skip_spaces (space ∷ buf) ≡ skip_spaces buf
unfolding skip_spaces
skip_spaces-space buf = refl

append-append : (xs ys zs : List ℕ) → (xs ++ ys) ++ zs ≡ xs ++ (ys ++ zs)
append-append [] ys zs = refl
append-append (x ∷ xs) ys zs = ap (λ l. x ∷ l) (append-append xs ys zs)

-- The word in front of a space is found, and what is behind it.
next_word-typed :
    (w : Word) (rest : List ℕ)
    → IsWord w
    → (buf : List ℕ) × (next_word (skip_spaces (typed w ++ (space ∷ rest))) ≡ some (text w, buf))
      × (skip_spaces buf ≡ skip_spaces rest)
next_word-typed (plain []) rest h = absurd h
next_word-typed (plain (c ∷ word)) rest h = (
  rest,
  ap next_word (skip_spaces-plain c (word ++ (space ∷ rest)) (ground arith))
      ∙ next_word-plain c (word ++ (space ∷ rest)) h.0
      ∙ cut_at-append space (c ∷ word) rest h.1,
  refl,
)
next_word-typed (quoted word) rest h = (
  space ∷ rest,
  ap next_word (skip_spaces-plain quote ((word ++ (quote ∷ [])) ++ (space ∷ rest)) refl)
      ∙ next_word-quoted ((word ++ (quote ∷ [])) ++ (space ∷ rest))
      ∙ ap (cut_at quote) (append-append word (quote ∷ []) (space ∷ rest))
      ∙ cut_at-append quote word (space ∷ rest) h,
  skip_spaces-space rest,
)

arguments-skip :
    (fuel argc : ℕ) (a b : List ℕ)
    → skip_spaces a ≡ skip_spaces b
    → arguments fuel argc a ≡ arguments fuel argc b
unfolding arguments
arguments-skip zero argc a b e = refl
arguments-skip (suc fuel) argc a b e =
    ap (λ buf. collect argc (arguments fuel (argc + 1)) (next_word buf)) e

keep_if :
    (word : List ℕ) (words : List (List ℕ)) (argc n : ℕ)
    → (if ltb argc max_args
        then keep word (if ltb (argc + 1 + n) max_args then some words else none)
        else none)
      ≡ (if ltb (argc + suc n) max_args then some (word ∷ words) else none)
unfolding keep
keep_if word words argc n = elim (Bool-cases (ltb (argc + suc n) max_args)) [
  | inl e ↦ rw (e, a e, b e) refl
  | inr e ↦ elim (Bool-cases (ltb argc max_args)) [
    | inl h ↦ rw (e, h, c e) refl
    | inr h ↦ rw (e, h) refl
  ]
]
  where
    a : ltb (argc + suc n) max_args ≡ true → ltb argc max_args ≡ true
    a e = ground arith

    b : ltb (argc + suc n) max_args ≡ true → ltb (argc + 1 + n) max_args ≡ true
    b e = ground arith

    c : ltb (argc + suc n) max_args ≡ false → ltb (argc + 1 + n) max_args ≡ false
    c e = ground arith

arguments-spaced :
    (fuel argc : ℕ) (ws : List Word)
    → AllWords ws
    → length ws < fuel
    → arguments fuel argc (spaced ws)
      ≡ (if ltb (argc + length ws) max_args then some (map text ws) else none)
unfolding arguments collect next_word skip_spaces
arguments-spaced zero argc ws h f = absurd (omega arith)
arguments-spaced (suc fuel) argc [] h f =
    ap (λ n. if ltb n max_args then some [] else none) (omega arith)
arguments-spaced (suc fuel) argc (w ∷ ws) h f =
    let (buf, found, same) = next_word-typed w (spaced ws) h.0 in
    ap (collect argc (arguments fuel (argc + 1))) found
    ∙ ap (λ l. if ltb argc max_args then keep (text w) l else none)
        (arguments-skip fuel (argc + 1) buf (spaced ws) same
          ∙ arguments-spaced fuel (argc + 1) ws h.1 (omega arith))
    ∙ keep_if (text w) (map text ws) argc (length ws)

-- A command line as it is typed: words with spaces between them, and the newline.
abbrev pub line : List Word → List ℕ
line [] = 10 ∷ []
line (w ∷ []) = typed w ++ (10 ∷ [])
line (w ∷ (v ∷ ws)) = typed w ++ (space ∷ line (v ∷ ws))

space_last-append :
    (xs : List ℕ) (y : ℕ) (ys : List ℕ) → space_last (xs ++ (y ∷ ys)) ≡ xs ++ space_last (y ∷ ys)
unfolding space_last
space_last-append [] y ys = refl
space_last-append (x ∷ []) y ys = refl
space_last-append (x ∷ (z ∷ xs)) y ys = ap (λ l. x ∷ l) (space_last-append (z ∷ xs) y ys)

space_last-cons :
    (v : Word) (ws : List Word)
    → space_last (space ∷ line (v ∷ ws)) ≡ space ∷ space_last (line (v ∷ ws))
space_last-cons v [] =
    space_last-append (space ∷ typed v) 10 []
    ∙ ap (λ l. space ∷ l) (sym (space_last-append (typed v) 10 []))
space_last-cons v (u ∷ ws) =
    space_last-append (space ∷ typed v) space (line (u ∷ ws))
    ∙ ap (λ l. space ∷ l) (sym (space_last-append (typed v) space (line (u ∷ ws))))

space_last-line : (w : Word) (ws : List Word) → space_last (line (w ∷ ws)) ≡ spaced (w ∷ ws)
unfolding space_last
space_last-line w [] = space_last-append (typed w) 10 []
space_last-line w (v ∷ ws) =
    space_last-append (typed w) space (line (v ∷ ws))
    ∙ ap (λ l. typed w ++ l) (space_last-cons v ws ∙ ap (λ l. space ∷ l) (space_last-line v ws))

length-spaced : (ws : List Word) → length ws ≤ length (spaced ws)
length-spaced [] = omega arith
length-spaced (w ∷ ws) =
    omega (arith, length-append (typed w) (space ∷ spaced ws), length-spaced ws)

length-line : (w : Word) (ws : List Word) → 0 < length (line (w ∷ ws))
length-line w [] = omega (arith, length-append (typed w) (10 ∷ []))
length-line w (v ∷ ws) = omega (arith, length-append (typed w) (space ∷ line (v ∷ ws)))

-- The words and the null pointer behind them have a place in `argv`, and the line in `array`.
abbrev pub has_places : List Word → Bool
has_places ws = ltb (length (line ws)) max_line && ltb (length ws) max_args

parseline-line :
    (w : Word) (ws : List Word)
    → AllWords (w ∷ ws)
    → parseline (line (w ∷ ws))
      ≡ (if has_places (w ∷ ws) then some (background (map text (w ∷ ws))) else none)
unfolding parseline with_background
parseline-line w ws h =
    ap
      (λ buf.
        if fits (line (w ∷ ws)) then with_background (arguments (suc (length buf)) 0 buf) else none)
      (space_last-line w ws)
    ∙ ap (λ o. if fits (line (w ∷ ws)) then with_background o else none)
        (arguments-spaced (suc (length (spaced (w ∷ ws)))) 0 (w ∷ ws) h
          (omega (arith, length-spaced (w ∷ ws))))
    ∙ chosen (length (line (w ∷ ws))) (length (w ∷ ws)) (map text (w ∷ ws)) (length-line w ws)
  where
    chosen :
        (chars n : ℕ) (argv : List (List ℕ))
        → 0 < chars
        → (if not (chars == 0) && ltb chars max_line
            then with_background (if ltb (0 + n) max_args then some argv else none)
            else none)
          ≡ (if ltb chars max_line && ltb n max_args then some (background argv) else none)
    chosen chars n argv pos_chars = ground arith

-- No word begins with an ampersand.
abbrev pub NoAmpersand : List Word → Type 0
NoAmpersand [] = Unit {0}
NoAmpersand (w ∷ ws) = (starts_with ampersand (text w) ≡ false) × NoAmpersand ws

background-words :
    (w : Word) (ws : List Word)
    → NoAmpersand (w ∷ ws)
    → (background (map text (w ∷ ws)) ≡ (false, map text (w ∷ ws)))
      × (background (map text ((w ∷ ws) ++ (plain (ampersand ∷ []) ∷ [])))
          ≡ (true, map text (w ∷ ws)))
unfolding background
background-words w [] h = (rw h.0 refl, refl)
background-words w (v ∷ ws) h = let (fg, bg) = background-words v ws h.1 in (rw fg refl, rw bg refl)

AllWords-append : (ws : List Word) → AllWords ws → AllWords (ws ++ (plain (ampersand ∷ []) ∷ []))
AllWords-append [] h = ((refl, refl), tt)
AllWords-append (w ∷ ws) h = (h.0, AllWords-append ws h.1)

-- The words of a command, with `&` as one more word for the background.
abbrev pub command_of : Bool → List Word → List Word
command_of false ws = ws
command_of true ws = ws ++ (plain (ampersand ∷ []) ∷ [])

-- A command line of words, with `&` behind them for the background or without, is parsed back into
-- the words' texts and into whether it is for the background, if no plain word is empty, has a space
-- or begins with a quote, no quoted word has a quote, and no text begins with `&`: as long as the
-- line has less than `MAXLINE` characters and less than `MAXARGS` words, `&` among them. For any
-- other line of words the code writes outside of `array` or of `argv`.
pub parseline-words :
    (bg : Bool) (w : Word) (ws : List Word)
    → AllWords (w ∷ ws)
    → NoAmpersand (w ∷ ws)
    → parseline (line (command_of bg (w ∷ ws)))
      ≡ (if has_places (command_of bg (w ∷ ws)) then some (bg, map text (w ∷ ws)) else none)
parseline-words false w ws h n =
    parseline-line w ws h
    ∙ ap (λ r. if has_places (w ∷ ws) then some r else none) (background-words w ws n).0
parseline-words true w ws h n =
    parseline-line w (ws ++ (plain (ampersand ∷ []) ∷ [])) (AllWords-append (w ∷ ws) h)
    ∙ ap (λ r. if has_places (command_of true (w ∷ ws)) then some r else none)
        (background-words w ws n).1

skip_spaces-replicate : (n : ℕ) → skip_spaces (replicate n space) ≡ []
unfolding skip_spaces
skip_spaces-replicate zero = refl
skip_spaces-replicate (suc n) = skip_spaces-replicate n

space_last-replicate :
    (n : ℕ) → space_last (replicate n space ++ (10 ∷ [])) ≡ replicate (suc n) space
unfolding space_last
space_last-replicate n = space_last-append (replicate n space) 10 [] ∙ behind n
  where
    behind : (n : ℕ) → replicate n space ++ (space ∷ []) ≡ replicate (suc n) space
    behind zero = refl
    behind (suc n) = ap (λ l. space ∷ l) (behind n)

-- A line of spaces has no argument.
pub parseline-blank :
    (n : ℕ) → suc n < max_line → parseline (replicate n space ++ (10 ∷ [])) ≡ some (true, [])
unfolding parseline arguments collect next_word background with_background
parseline-blank n lt = rw fitting (
    ap (λ buf. with_background (arguments (suc (length buf)) 0 buf)) (space_last-replicate n)
    ∙ ap
        (λ buf.
          with_background
            (collect 0 (arguments (length (replicate (suc n) space)) (0 + 1)) (next_word buf)))
        (skip_spaces-replicate (suc n)))
  where
    length-replicate : (k : ℕ) → length (replicate k space) ≡ k
    length-replicate zero = refl
    length-replicate (suc k) = ap suc (length-replicate k)

    chars : length (replicate n space ++ (10 ∷ [])) ≡ suc n
    chars = omega (arith, length-append (replicate n space) (10 ∷ []), length-replicate n)

    fitting : fits (replicate n space ++ (10 ∷ [])) ≡ true
    fitting = rw chars (ground arith)
