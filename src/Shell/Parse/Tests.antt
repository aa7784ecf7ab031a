-- ===== src/Shell/Parse/Tests.antt =====
-- Runs of the parser on `ls 'a b'`.
use snu_projects.Base.{◌≡◌, refl, true, false, [], ◌∷◌, map, some, none, if◌then◌else◌, replicate}
use snu_projects.Shell.Parse.{parseline}
use snu_projects.Shell.Parse.RoundTrip.{
  Word, plain, quoted, text, line, command_of, has_places, parseline-words,
}

abbrev list_word : Word
list_word = plain (108 ∷ 115 ∷ [])

abbrev name_word : Word
name_word = quoted (97 ∷ 32 ∷ 98 ∷ [])

parseline-words_example : parseline (line (command_of true (list_word ∷ name_word ∷ []))) ≡ (
    if has_places (command_of true (list_word ∷ name_word ∷ []))
    then some (true, map text (list_word ∷ name_word ∷ []))
    else none)
parseline-words_example =
    parseline-words true list_word (name_word ∷ []) ((refl, refl), (refl, tt)) (refl, (refl, tt))

in_background :
    parseline (line (command_of true (list_word ∷ name_word ∷ [])))
    ≡ some (true, (108 ∷ 115 ∷ []) ∷ (97 ∷ 32 ∷ 98 ∷ []) ∷ [])
unfolding parseline
in_background = refl

-- With the null pointer behind them, 127 words have a place, and 128 words have none.
many : has_places (replicate 127 list_word) ≡ true
many = refl

too_many : has_places (replicate 128 list_word) ≡ false
too_many = refl
