-- ===== src/Devsummarize/Main.antt =====
-- `main` of cmd/devsummarize/main.go, but for what it prints, and its exit status.
use suzie_filtering_system.Base.{
  ℕ, ◌/◌, Text, Bool, true, false, ◌&&◌, ◌||◌, Option, none, some, List, [], ◌∷◌, map, any, length,
  ltb, All, ◌⊎◌, inl, inr, ◌==◌, ◌≡◌, ◌≢◌, refl, sym, ap, ◌∙◌, is_empty, arith, if◌then◌else◌,
}
use suzie_filtering_system.World.{World, Env, ok, Io, pure, ◌>>=◌}
use suzie_filtering_system.Llm.{Client}
use suzie_filtering_system.Devsummarize.{
  Tool, Options, Record, Tally, no_tally, add_warning, count, count_all,
}
use suzie_filtering_system.Devsummarize.Files.{resolve_files, preflight}
use suzie_filtering_system.Devsummarize.Check.{process_files}
use suzie_filtering_system.Devsummarize.Returned.{Processed, process_files-Run}
use suzie_filtering_system.Devsummarize.Report.{write_report}

-- the byte order of Go strings, which is that of the code points
unfoldable pub before : Text → Text → Bool
before [] t = true
before (c ∷ s) [] = false
before (c ∷ s) (d ∷ t) = let rest = before s t in ltb c d || c == d && rest

unfoldable pub insert_text : Text → List Text → List Text
unfolding before
insert_text f [] = f ∷ []
insert_text f (g ∷ files) =
    let rest = insert_text f files in if before f g then f ∷ g ∷ files else g ∷ rest

-- sort.Strings
unfoldable pub sort_strings : List Text → List Text
unfolding insert_text
sort_strings [] = []
sort_strings (f ∷ files) = insert_text f (sort_strings files)

-- The exit status, the records, and the report with the error of its writer.
pub record Exit : Type 0 where
  pub status : ℕ
  pub records : List Record
  pub report : Option (Text × Option Text)

abbrev pub refuse : Exit
refuse = record { status = 1; records = []; report = none }

abbrev mean : ℕ → ℕ → ℕ
mean total n = if ltb 0 n then total / n else 0

-- what follows the loop
unfoldable pub finish_main : Tool → Options → List Record → Tally → Exit
finish_main tool opts records t = record {
  status = if opts.fail_invalid && ltb 0 t.n_warn then 2 else 0;
  records = records;
  report =
      if is_empty opts.out
      then none
      else some
          (write_report tool records opts.model opts.language (mean t.total_ms (length records)));
}

module _ ⦃env : Env⦄ where
  abbrev run_files : Tool → Options → Client → List Text → Option Text → Io Exit
  run_files tool opts client files (some e) = pure refuse
  run_files tool opts client files none = do
    (records, t) ← process_files tool opts client (sort_strings files) [] no_tally
    pure (finish_main tool opts records t)

  abbrev main_files : Tool → Options → Client → List Text × Option Text → Io Exit
  main_files tool opts client (files, some e) = pure refuse
  main_files tool opts client ([], none) = pure refuse
  main_files tool opts client (f ∷ files, none) =
      run_files tool opts client (f ∷ files) (preflight tool opts.ollama_url opts.model)

  unfoldable pub main : Tool → Options → Client → Io Exit
  unfolding resolve_files preflight process_files finish_main sort_strings
  main tool opts client = main_files tool opts client (resolve_files tool opts.fixtures)

-- The record has a warning.
abbrev pub warns : Record → Bool
warns r = elim r.checks [ [] ↦ false | w ∷ ws ↦ true ]

||-false : (b : Bool) → (b || false) ≡ b
||-false true = refl
||-false false = refl

count_all-warns :
    (rs : List Record) (t : Tally)
    → ltb 0 (count_all rs t).n_warn ≡ (any warns rs || ltb 0 t.n_warn)
unfolding count_all
count_all-warns [] t = refl
count_all-warns (r ∷ rs) t = count_all-warns rs (count r t) ∙ go r.checks
  where
    go :
        (checks : List Text)
        → (any warns rs || ltb 0 (add_warning checks t.n_warn))
          ≡ ((elim checks [ [] ↦ false | w ∷ ws ↦ true ] || any warns rs) || ltb 0 t.n_warn)
    go [] = refl
    go (w ∷ ws) = ground (arith)

module _ ⦃env : Env⦄ (tool : Tool) (opts : Options) where
  abbrev pub found : List Text × Option Text
  found = resolve_files tool opts.fixtures

  -- How `main` ends.
  pub data Exits (x : Exit) : Type 0 where
    refused :
        (found.1 ≢ none) ⊎ (found.0 ≡ []) ⊎ (preflight tool opts.ollama_url opts.model ≢ none)
        → x ≡ refuse
        → Exits x
    ran :
        found.1 ≡ none
        → preflight tool opts.ollama_url opts.model ≡ none
        → map (λ (r : Record). r.file) x.records ≡ sort_strings found.0
        → All (λ r. Processed r.file r) x.records
        → x.status ≡ (if opts.fail_invalid && any warns x.records then 2 else 0)
        → Exits x

  Ends : Io Exit → Type 0
  Ends m = (w : World) → (x : Exit) × ((m w).0 ≡ ok x) × Exits x

  run_files-Ends :
      (client : Client) (files : List Text) (p : Option Text)
      → found ≡ (files, none)
      → preflight tool opts.ollama_url opts.model ≡ p
      → Ends (run_files tool opts client files p)
  unfolding Ends ◌>>=◌ finish_main
  run_files-Ends client files (some e) f h w =
      (refuse, refl, refused (inr (inr (λ n. absurd (cc)))) refl)
  run_files-Ends client files none f h w =
      let run = process_files-Run tool opts client (sort_strings files) [] no_tally w in
      rw run.returns (
        finish_main tool opts run.rs (count_all run.rs no_tally),
        refl,
        ran (cc) h (run.in_order ∙ ap (λ (r : List Text × Option Text). sort_strings r.0) (sym f))
            run.processed
            (ap (λ (b : Bool). if opts.fail_invalid && b then 2 else 0)
              (count_all-warns run.rs no_tally ∙ ||-false (any warns run.rs))),
      )

  main_files-Ends :
      (client : Client) (r : List Text × Option Text)
      → found ≡ r
      → Ends (main_files tool opts client r)
  unfolding Ends
  main_files-Ends client (files, some e) f w = (refuse, refl, refused (inl (λ n. absurd (cc))) refl)
  main_files-Ends client ([], none) f w = (refuse, refl, refused (inr (inl (cc))) refl)
  main_files-Ends client (g ∷ files, none) f w = run_files-Ends client (g ∷ files) _ f refl w

  pub main-Exits :
      (client : Client) (w : World) → (x : Exit) × ((main tool opts client w).0 ≡ ok x) × Exits x
  unfolding main Ends
  main-Exits client w = main_files-Ends client found refl w
