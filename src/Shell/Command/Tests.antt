-- ===== src/Shell/Command/Tests.antt =====
-- Runs of commands and of the handlers, with one job in the list.
use snu_projects.Base.{ℕ, ◌-◌, ◌≡◌, refl, false, List, [], ◌∷◌, some, arith, replicate}
use snu_projects.Base.Int.{ℤ, pos}
use snu_projects.Shell.Jobs.{
  Shell, foreground, background, cleared, initjobs, addjob, getjobpid, position, fgpid,
}
use snu_projects.Shell.Jobs.Laws.{IsValid}
use snu_projects.Shell.Jobs.Update.{addjob-IsValid, initjobs-IsValid}
use snu_projects.Shell.Parse.{parseline}
use snu_projects.Shell.Command.{eval, faults, reap, stopped_with}
use snu_projects.Shell.Command.Laws.{Leaves, Reaped, eval-IsValid, reap_lem}

abbrev no_job_yet : Shell
no_job_yet = record { jobs = initjobs (replicate 2 cleared); nextjid = 1 }

abbrev in_front : Shell
in_front = (addjob 700 foreground (97 ∷ []) no_job_yet).1

in_front-IsValid : IsValid in_front.jobs
unfolding initjobs getjobpid position fgpid
in_front-IsValid =
    addjob-IsValid 700 foreground (97 ∷ []) no_job_yet (initjobs-IsValid (replicate 2 cleared))
      (omega arith) refl (λ e. refl)

abbrev behind : Shell
behind = (addjob 700 background (97 ∷ []) no_job_yet).1

behind-IsValid : IsValid behind.jobs
unfolding initjobs getjobpid position fgpid
behind-IsValid =
    addjob-IsValid 700 background (97 ∷ []) no_job_yet (initjobs-IsValid (replicate 2 cleared))
      (omega arith) refl (λ e. refl)

-- A stand-in for `atoi` that reads one digit.
abbrev digit : List ℕ → ℤ
digit [] = pos 0
digit (c ∷ _) = pos (c - 48)

-- The line "a" and a newline.
eval-IsValid_example : Leaves (eval digit (97 ∷ 10 ∷ []) (some 800) behind)
unfolding addjob initjobs getjobpid position fgpid parseline
eval-IsValid_example =
    eval-IsValid digit (97 ∷ 10 ∷ []) (some 800) behind false (97 ∷ []) [] behind-IsValid refl refl
      (omega arith, refl)

reap_lem_example : Reaped 700 (reap 700 (stopped_with 20) in_front)
unfolding addjob initjobs getjobpid position fgpid
reap_lem_example = reap_lem 700 0 (stopped_with 20) in_front in_front-IsValid (omega arith) refl

-- The lines `&` and `'a`, with the newline, have no argument.
lone_ampersand : eval digit (38 ∷ 10 ∷ []) (some 800) behind ≡ faults
unfolding eval parseline
lone_ampersand = refl

open_quote : eval digit (39 ∷ 97 ∷ 10 ∷ []) (some 800) behind ≡ faults
unfolding eval parseline
open_quote = refl
