-- ===== src/Llm/Keeps.antt =====
-- Summarizing asks the model and reads the clock, and changes nothing that the program keeps.
use suzie_filtering_system.Base.{ℕ, Text, Bool}
use suzie_filtering_system.Model.{Summary, Input}
use suzie_filtering_system.World.{World, Env, Result, ok, err}
use suzie_filtering_system.World.Keeps.{Keeps, IsFrame, keeps_rules}
use suzie_filtering_system.Llm.{Client, call, timed_call, first_answer, second_answer, summarize}

module _ {R : World → World → Type 0} (frame : IsFrame R) ⦃env : Env⦄ where
  call-Keeps : (c : Client) (input : Input) (strict : Bool) → Keeps R (call c input strict)
  unfolding call
  call-Keeps c input strict = search keeps_rules depth 8

  timed_call-Keeps :
      (c : Client) (input : Input) (strict : Bool) → Keeps R (timed_call c input strict)
  unfolding timed_call
  timed_call-Keeps c input strict = search (keeps_rules, call-Keeps) depth 10

  second_answer-Keeps :
      (answer : Result Text) (s : Result Summary) (total : ℕ)
      → Keeps R (second_answer answer s total)
  second_answer-Keeps answer (ok s) total = search keeps_rules
  second_answer-Keeps answer (err e) total = search keeps_rules

  first_answer-Keeps :
      (c : Client) (input : Input) (answer : Result Text) (s : Result Summary) (ms : ℕ)
      → Keeps R (first_answer c input answer s ms)
  first_answer-Keeps c input answer (ok s) ms = search keeps_rules
  first_answer-Keeps c input answer (err e) ms =
      search (keeps_rules, timed_call-Keeps, second_answer-Keeps)

  pub summarize-Keeps : (c : Client) (input : Input) → Keeps R (summarize c input)
  unfolding summarize
  summarize-Keeps c input = search (keeps_rules, timed_call-Keeps, first_answer-Keeps)
