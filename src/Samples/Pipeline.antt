-- ===== src/Samples/Pipeline.antt =====
-- Instances of the theorems on polling, IMAP, the archive and the model.
use suzie_filtering_system.Base.{some, none, codes, Text, [], ◌∷◌, ◌≡◌, refl, arith}
use suzie_filtering_system.Model.{parse_time, Summary, RawDebug}
use suzie_filtering_system.Tables.{empty_db}
use suzie_filtering_system.World.{World, Env, done, ok, err}
use suzie_filtering_system.World.Hoare.{EndsWith}
use suzie_filtering_system.Store.Cursor.{cursor-moved}
use suzie_filtering_system.Imap.Fetched.{Fetched, fetch-Fetched}
use suzie_filtering_system.Imap.{fetch}
use suzie_filtering_system.Imap.Dial.{Net, Dials, dial, dial-Dials}
use suzie_filtering_system.Archive.{
  safe_rune, sanitize, safe_name, base_name, archive_stem, read_file, write,
}
use suzie_filtering_system.Archive.Live.{Clash}
use suzie_filtering_system.Archive.Blocked.{write-Blocked}
use suzie_filtering_system.Poll.Live.Run.{Ran, run-Ran}
use suzie_filtering_system.Archive.Names.{IsFileName, safe_name-IsFileName}
use suzie_filtering_system.Archive.Written.{Holds, write-Holds}
use suzie_filtering_system.Llm.{summarize}
use suzie_filtering_system.Llm.Valid.{IsPersistable, summarize-IsPersistable}
use suzie_filtering_system.Parse.{message}
use suzie_filtering_system.Poll.{process_one, process_batch, round, run}
use suzie_filtering_system.Poll.Acknowledged.{Acked}
use suzie_filtering_system.Poll.Safety.{process_one-Acked}
use suzie_filtering_system.Poll.Progress.{IsDone, round-Done}
use suzie_filtering_system.Poll.Batch.{process_batch-Sound}
use suzie_filtering_system.Poll.NoSkip.{Sound}
use suzie_filtering_system.Poll.NoLoss.{RunEnds, run-RunEnds}
use suzie_filtering_system.Samples.{
  demo, client, inbox, job, start_world, first_mail, second_mail, batch, question,
}

run-RunEnds_example :
    RunEnds ⦃env = demo⦄ job 0 7 10 start_world (run ⦃env = demo⦄ job start_world).1
run-RunEnds_example =
    run-RunEnds ⦃env = demo⦄ job 7 10 start_world
      (λ n. record { validity_fits = omega arith; next_fits = omega arith; distinct = tt })
      (cursor-moved inbox 7 10 empty_db (omega arith) (omega arith))

process_batch-Sound_example :
    Sound ⦃env = demo⦄ job 7 10
      (process_batch ⦃env = demo⦄ job batch start_world).1
      (second_mail ∷ first_mail ∷ [])
process_batch-Sound_example =
    process_batch-Sound ⦃env = demo⦄ job batch 10 start_world (omega arith)
      (omega arith, omega arith, refl, (omega arith, omega arith, refl, tt))
      (cursor-moved inbox 7 10 empty_db (omega arith) (omega arith))

process_one-Acked_example :
    Acked inbox 7 11
      (codes "m1")
      (codes "m1")
      start_world
      (process_one ⦃env = demo⦄ job 7 first_mail start_world).1
unfolding message
process_one-Acked_example =
    process_one-Acked ⦃env = demo⦄ job 7 first_mail start_world (omega arith) (omega arith)

round-Done_example :
    EndsWith
      (round ⦃env = demo⦄ job 7 first_mail)
      (λ _. IsDone 7 11 (codes "m1") (codes "m1"))
      start_world
unfolding message
round-Done_example =
    round-Done ⦃env = demo⦄ job 7 (omega arith) first_mail start_world (omega arith)

fetch-Fetched_example :
    EndsWith (fetch ⦃env = demo⦄ 7 10) (λ f _. Fetched ⦃env = demo⦄ 0 7 10 f) start_world
fetch-Fetched_example = fetch-Fetched ⦃env = demo⦄ 7 10 start_world

write-Holds_example :
    EndsWith
      (write ⦃env = demo⦄ (codes "/mail") (parse_time 9) (codes "<a@b>") 11 (codes "m1"))
      (Holds (codes "m1"))
      start_world
write-Holds_example =
    write-Holds ⦃env = demo⦄ (codes "m1") (codes "/mail") (parse_time 9) (codes "<a@b>") 11
      start_world

safe_name-IsFileName_example : IsFileName (safe_name (codes "<../a b@c>"))
safe_name-IsFileName_example = safe_name-IsFileName (codes "<../a b@c>")

summarize-IsPersistable_example :
    (s : Summary) × (d : RawDebug) × ((summarize ⦃env = demo⦄ client question start_world).0
      ≡ ok (s, d))
    × IsPersistable s
summarize-IsPersistable_example = summarize-IsPersistable ⦃env = demo⦄ client question start_world

-- Every call succeeds, and the mailbox holds two messages.
abbrev calm : Env
calm = record demo {
  reply = λ n. done;
  mailbox =
      λ n. record { uid_validity = 7; uid_next = 13; messages = first_mail ∷ second_mail ∷ [] };
}

run-Ran_example :
    Ran ⦃env = calm⦄ job 7 10 (first_mail ∷ second_mail ∷ []) (run ⦃env = calm⦄ job start_world)
run-Ran_example =
    run-Ran ⦃env = calm⦄ job 7 10 start_world (λ n. refl) (λ n u. refl)
      (λ n. record {
        validity_fits = omega arith;
        next_fits = omega arith;
        distinct = (omega arith, omega arith, refl, (omega arith, omega arith, refl, tt));
      })
      (λ n. refl) (λ h. absurd (omega arith))
      (cursor-moved inbox 7 10 empty_db (omega arith) (omega arith))

-- Both names of the message <a@b> are taken.
abbrev full_world : World
full_world = record start_world {
  files =
      (codes "/mail/2026/07/a_b.eml", codes "m2")
      ∷ (codes "/mail/2026/07/a_b-abcdefabcdef.eml", codes "m3")
      ∷ [];
}

full_world-Clash :
    Clash ⦃env = demo⦄
      (archive_stem ⦃env = demo⦄ (codes "/mail") (parse_time 9) (codes "<a@b>") 11)
      (codes "m1")
      full_world
unfolding archive_stem base_name safe_name sanitize safe_rune read_file
full_world-Clash = ((codes "m2", refl, refl), (codes "m3", refl, refl))

write-Blocked_example :
    (e : Text) × ((write ⦃env = demo⦄
        (codes "/mail")
        (parse_time 9)
        (codes "<a@b>")
        11
        (codes "m1")
        full_world).0
      ≡ err e)
write-Blocked_example =
    write-Blocked ⦃env = demo⦄ (codes "m1") (codes "/mail") (parse_time 9) (codes "<a@b>") 11
      full_world refl full_world-Clash

-- A server that answers.
abbrev net : Net
net = record { dial_context = none; set_deadline = none; dial_with_dialer_tls = λ c. c }

dial-Dials_example : Dials (some 900) 100 200 (dial net (some 900) 100 200)
dial-Dials_example = dial-Dials net (some 900) 100 200 (omega arith)
