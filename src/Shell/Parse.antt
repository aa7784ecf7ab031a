-- ===== src/Shell/Parse.antt =====
-- `parseline` of shlab/shlab/tsh.c. A string is the list of its characters, without the `\0`. The
-- arrays have the sizes of the code, and a write outside of one is `none`.
pub mod RoundTrip
mod Tests
use snu_projects.Base.{
  ℕ, zero, suc, ◌+◌, not, ◌&&◌, ltb, Bool, true, false, List, [], ◌∷◌, ◌++◌, Option, none, some,
  ◌==◌, if◌then◌else◌, length,
}

abbrev pub space : ℕ
space = 32

abbrev pub quote : ℕ
quote = 39

abbrev pub ampersand : ℕ
ampersand = 38

-- `while (*buf && (*buf == ' ')) buf++;`
pub skip_spaces : List ℕ → List ℕ
skip_spaces [] = []
skip_spaces (c ∷ buf) = let rest = skip_spaces buf in if c == space then rest else c ∷ buf

prepend : ℕ → Option (List ℕ × List ℕ) → Option (List ℕ × List ℕ)
prepend c none = none
prepend c (some (word, rest)) = some (c ∷ word, rest)

-- `strchr(buf, c)`, followed by `*delim = '\0'` and `buf = delim + 1`: what stands before the
-- character and what stands behind it.
pub cut_at : ℕ → List ℕ → Option (List ℕ × List ℕ)
unfolding prepend
cut_at delim [] = none
cut_at delim (c ∷ buf) =
    let rest = cut_at delim buf in if c == delim then some ([], buf) else prepend c rest

-- The search for the delimiter: an argument that begins with a quote ends at the next quote.
pub next_word : List ℕ → Option (List ℕ × List ℕ)
unfolding cut_at
next_word [] = none
next_word (c ∷ buf) = if c == quote then cut_at quote buf else cut_at space (c ∷ buf)

-- `MAXARGS`, the places of `argv`, and `MAXLINE`, those of `array`.
abbrev pub max_args : ℕ
max_args = 128

abbrev pub max_line : ℕ
max_line = 1024

keep : List ℕ → Option (List (List ℕ)) → Option (List (List ℕ))
keep word none = none
keep word (some words) = some (word ∷ words)

-- One turn of the loop, which writes `argv[argc]`: the loop ends when there is no delimiter, and the
-- null pointer is written.
collect :
    (argc : ℕ)
    → (List ℕ → Option (List (List ℕ)))
    → Option (List ℕ × List ℕ)
    → Option (List (List ℕ))
unfolding keep
collect argc more none = if ltb argc max_args then some [] else none
collect argc more (some (word, buf)) = if ltb argc max_args then keep word (more buf) else none

-- The loop that builds `argv`, from a place on, on fuel.
pub arguments : (fuel argc : ℕ) → List ℕ → Option (List (List ℕ))
unfolding next_word skip_spaces collect
arguments zero argc buf = none
arguments (suc fuel) argc buf =
    collect argc (arguments fuel (argc + 1)) (next_word (skip_spaces buf))

-- `buf[strlen(buf) - 1] = ' '`
pub space_last : List ℕ → List ℕ
space_last [] = []
space_last (c ∷ []) = space ∷ []
space_last (c ∷ (d ∷ line)) = c ∷ space_last (d ∷ line)

abbrev pub starts_with : ℕ → List ℕ → Bool
starts_with c [] = false
starts_with c (d ∷ word) = d == c

-- A last argument that begins with `&` asks for the background and is dropped.
pub background : List (List ℕ) → Bool × List (List ℕ)
background [] = (true, [])
background (word ∷ []) = if starts_with ampersand word then (true, []) else (false, word ∷ [])
background (word ∷ (next ∷ words)) = let (bg, argv) = background (next ∷ words) in (bg, word ∷ argv)

-- The line and its `\0` fit in `array`, and the line has a last character.
abbrev pub fits : List ℕ → Bool
fits cmdline = not (length cmdline == 0) && ltb (length cmdline) max_line

with_background : Option (List (List ℕ)) → Option (Bool × List (List ℕ))
unfolding background
with_background none = none
with_background (some argv) = some (background argv)

-- `parseline`: whether the job is to run in the background, and `argv`.
unfoldable pub parseline : List ℕ → Option (Bool × List (List ℕ))
unfolding space_last arguments with_background
parseline cmdline =
    let buf = space_last cmdline in
    if fits cmdline then with_background (arguments (suc (length buf)) 0 buf) else none
