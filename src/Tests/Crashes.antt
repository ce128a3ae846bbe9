-- ===== src/Tests/Crashes.antt =====
-- The spool with one payload acknowledged, and a second one half written, when the power is lost.
use archiv_agent.Base.{refl, arith, [], ◌∷◌, true, false}
use archiv_agent.Wire.{Bytes}
use archiv_agent.Spool.{empty, reserve, publish, insert, parse_seq, otlp_name, digits, value}
use archiv_agent.Spool.Recovery.{recover, scan_dir, scan_entry, ends_with, tmp_name, sweep, File}
use archiv_agent.Spool.Recovery.Crashes.{
  System, unlink, file, Reaches, start, step, begin, write, sync, rename, finish, crash, kept, torn,
  none_left,
}
use archiv_agent.Spool.Recovery.Durable.{IsDurable}
use archiv_agent.Spool.Recovery.Promise.{Reaches-IsDurable}

abbrev payload : Bytes
payload = 1 ∷ 2 ∷ 3 ∷ []

-- The `.tmp` file of the payload, synced, and then under its name.
abbrev tmp : File
tmp = record (file false 0 payload) { durable = true }

abbrev published : File
published = record tmp { published = true }

abbrev half : File
half = file false 1 (4 ∷ [])

abbrev running : System
running = record {
  files = half ∷ published ∷ [];
  live = record { next_seq = 2; total_bytes = 5; pending = (0, 3) ∷ [] };
  begun = 2;
  writing = (1, 4 ∷ 5 ∷ []) ∷ [];
  synced = [];
  renamed = [];
  acknowledged = (0, payload) ∷ [];
}

running-Reaches : Reaches 100 running
unfolding empty reserve publish insert unlink
running-Reaches =
    step
      (step
        (step
          (step
            (step
              (step (step start (begin payload 0 _ refl refl))
                (write [] [] 0 payload payload refl refl))
              (sync [] [] 0 payload [] [] refl refl refl))
            (rename [] [] 0 payload [] [] tmp refl refl refl refl refl))
          (finish [] [] 0 payload refl refl))
        (begin (4 ∷ 5 ∷ []) 1 _ refl refl))
      (write [] [] 1 (4 ∷ 5 ∷ []) (4 ∷ []) refl refl)

-- The half-written file has lost its bytes, and is gone behind the restart; the first payload waits to
-- be drained.
abbrev restarted : System
restarted = record {
  files = published ∷ [];
  live = record { next_seq = 1; total_bytes = 3; pending = (0, 3) ∷ [] };
  begun = 2;
  writing = [];
  synced = [];
  renamed = [];
  acknowledged = (0, payload) ∷ [];
}

restarted-Reaches : Reaches 100 restarted
unfolding recover scan_dir scan_entry ends_with tmp_name sweep parse_seq otlp_name digits value
    insert
restarted-Reaches =
    step running-Reaches
      (crash (file false 1 [] ∷ published ∷ []) (torn half [] refl (kept published none_left)) refl)

Reaches-IsDurable_example : IsDurable restarted
Reaches-IsDurable_example = Reaches-IsDurable restarted-Reaches (omega arith)
