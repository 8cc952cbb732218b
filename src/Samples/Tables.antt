-- ===== src/Samples/Tables.antt =====
-- Instances of the theorems on the store, the digest job and the run lock.
use suzie_filtering_system.Base.{ℕ, text_eq, false, codes, [], ◌∷◌, ◌≡◌, ◌≢◌, refl, any, map, arith}
use suzie_filtering_system.Model.{parse_time, zero_time}
use suzie_filtering_system.Tables.{select_state, select_exists, collides}
use suzie_filtering_system.World.{Env, done, ok, ◌>>◌}
use suzie_filtering_system.World.Hoare.{EndsWith}
use suzie_filtering_system.World.Effects.{AllOrNothing}
use suzie_filtering_system.Store.{
  columns, scan_email, default_string, read_time, digest_key, complete_digest, pending_for_digest,
  set_last_uid, last_uid,
}
use suzie_filtering_system.Store.Cursor.{cursor}
use suzie_filtering_system.Store.Insert.{any-collides}
use suzie_filtering_system.Store.Scan.{scan_email-columns}
use suzie_filtering_system.Store.Complete.{
  completed, after_digest, complete_digest-AllOrNothing, completed_lem,
}
use suzie_filtering_system.Store.Pending.{Selects, pending_for_digest-Selects}
use suzie_filtering_system.Store.Cursor.ReadBack.{last_uid-set_last_uid, last_uid-set_last_uid_live}
use suzie_filtering_system.Scheduler
use suzie_filtering_system.Store.Live.{read_time-none}
use suzie_filtering_system.Scheduler.Live.{Digested, run_digest-Live}
use suzie_filtering_system.Scheduler.Delivery.{DigestEnds, run_digest-DigestEnds}
use suzie_filtering_system.Scheduler.Lock.{
  running, initial, Reach, here, next, allow, take, start, begin, acquire, release, one_job,
  no_job_after_stop,
}
use suzie_filtering_system.Samples.{
  demo, start_world, inbox, row, table, scheduler, digest_world, ran, halted,
}

run_digest-DigestEnds_example :
    DigestEnds ⦃env = demo⦄ scheduler digest_world
      (Scheduler.run_digest ⦃env = demo⦄ scheduler digest_world).1
run_digest-DigestEnds_example = run_digest-DigestEnds ⦃env = demo⦄ scheduler digest_world

-- the network of `demo` where every call succeeds
abbrev calm : Env
calm = record demo { reply = λ n. done }

run_digest-Live_example :
    ((Scheduler.run_digest ⦃env = calm⦄ scheduler digest_world).0 ≡ ok tt)
    × Digested ⦃env = calm⦄ scheduler zero_time digest_world.db digest_world.outbox
        (Scheduler.run_digest ⦃env = calm⦄ scheduler digest_world).1
unfolding select_state
run_digest-Live_example =
    run_digest-Live ⦃env = calm⦄ scheduler digest_world zero_time (λ n. refl) read_time-none

complete_digest-AllOrNothing_example :
    AllOrNothing
      (completed (1 ∷ []) (parse_time 9) (parse_time 2) (parse_time 9))
      (complete_digest ⦃env = demo⦄ (1 ∷ []) (parse_time 9) (parse_time 2) (parse_time 9))
      digest_world
complete_digest-AllOrNothing_example =
    complete_digest-AllOrNothing ⦃env = demo⦄ (1 ∷ []) (parse_time 9) (parse_time 2) (parse_time 9)
      digest_world

completed_lem_example :
    let after = completed (1 ∷ []) (parse_time 9) (parse_time 2) (parse_time 9) digest_world.db in
    (after.emails ≡ map (after_digest (1 ∷ []) (parse_time 9)) table)
    × (after.digests
        ≡ record { sent_at = 9; window_start = 2; window_end = 9; email_count = 1 } ∷ [])
    × (read_time (select_state digest_key after.state) ≡ ok (parse_time 9))
completed_lem_example =
    completed_lem (1 ∷ []) (parse_time 9) (parse_time 2) (parse_time 9) digest_world.db

pending_for_digest-Selects_example :
    EndsWith
      (pending_for_digest ⦃env = demo⦄ (parse_time 2) (parse_time 9))
      (λ rows x. Selects 2 9 table rows × (x.db ≡ digest_world.db))
      digest_world
pending_for_digest-Selects_example =
    pending_for_digest-Selects ⦃env = demo⦄ (parse_time 2) (parse_time 9) digest_world

archive_folder : text_eq inbox (codes "Archive") ≡ false
archive_folder = refl

last_uid-set_last_uid_example :
    EndsWith
      (set_last_uid ⦃env = demo⦄ inbox 7 11 >> last_uid ⦃env = demo⦄ inbox)
      (λ p x.
        (p ≡ (7, 11)) × (cursor (codes "Archive") x.db ≡ cursor (codes "Archive") start_world.db))
      start_world
last_uid-set_last_uid_example =
    last_uid-set_last_uid ⦃env = demo⦄ inbox (codes "Archive") 7 11 start_world (omega arith)
      (omega arith) archive_folder

last_uid-set_last_uid_live_example :
    ((set_last_uid ⦃env = calm⦄ inbox 7 11 >> last_uid ⦃env = calm⦄ inbox) start_world).0
    ≡ ok (7, 11)
last_uid-set_last_uid_live_example =
    last_uid-set_last_uid_live ⦃env = calm⦄ inbox 7 11 start_world (λ n. refl) (omega arith)
      (omega arith)

any-collides_example : any (collides (columns row)) table ≡ select_exists 7 11 (codes "<a@b>") table
any-collides_example = any-collides row table

scan_email-columns_example : scan_email (record (columns row) { id = 4 }) ≡ record row {
  id = 4;
  received_at = parse_time 5;
  llm_status = default_string (codes "ok") (codes "ok");
  processed_at = parse_time 6;
}
scan_email-columns_example = scan_email-columns row 4

ran-Reach : Reach initial ran
ran-Reach = next (next (next here (allow 0 refl refl)) (take 0 refl refl)) (start 0 refl refl)

one_job_example : ◌≡◌ {A = ℕ} 0 0
one_job_example = one_job {s = ran} 0 0 ran-Reach refl refl

halted-Reach : Reach initial halted
halted-Reach = next (next (next here (begin refl)) (acquire refl refl)) (release refl)

no_job_after_stop_example : halted.workers 0 ≢ running
no_job_after_stop_example = no_job_after_stop {s = halted} {t = halted} 0 halted-Reach refl here
