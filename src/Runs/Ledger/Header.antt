-- ===== src/Runs/Ledger/Header.antt =====
-- What a record says apart from its steps: no operation changes it.
use ferry_cli.Base.{
  ℕ, String, ◌≡◌, Bool, true, false, Option, none, some, List, [], ◌∷◌, if◌then◌else◌,
}
use ferry_cli.Runs.Step.{Step, find_step}
use ferry_cli.Runs.Ledger.{
  Env, Write, LedgerError, Handle, Change, refuse, nothing, save_step, save, open_save, perform,
  on_found, on_step, LedgerOp, change_of, call, calls,
}

-- The record in memory and the one on disk have this id and this schema.
pub record HasHeader (id : String) (schema : ℕ) (h : Handle) : Type 0 where
  pub run_id : h.run.run_id ≡ id
  pub disk_id : h.disk.run_id ≡ id
  pub run_schema : h.run.schema ≡ schema
  pub disk_schema : h.disk.schema ≡ schema

module _ (id : String) (schema : ℕ) where
  if-HasHeader :
      (b : Bool) (x y : Handle × Option LedgerError)
      → HasHeader id schema x.0
      → HasHeader id schema y.0
      → HasHeader id schema (if b then x else y).0
  if-HasHeader true x y a c = a
  if-HasHeader false x y a c = c

  open_save-HasHeader :
      (h : Handle) (m : String) (new back : Step) (w : Write)
      → HasHeader id schema h
      → HasHeader id schema (open_save h m new back w).0
  open_save-HasHeader h m new back Write.lands a = record {
    run_id = a.run_id;
    disk_id = a.run_id;
    run_schema = a.run_schema;
    disk_schema = a.run_schema;
  }
  open_save-HasHeader h m new back Write.fails a = record {
    run_id = a.run_id;
    disk_id = a.disk_id;
    run_schema = a.run_schema;
    disk_schema = a.disk_schema;
  }
  open_save-HasHeader h m new back Write.unsynced a = record {
    run_id = a.run_id;
    disk_id = a.run_id;
    run_schema = a.run_schema;
    disk_schema = a.run_schema;
  }

  perform-HasHeader :
      (h : Handle) (m : String) (w : Write) (c : Change)
      → HasHeader id schema h
      → HasHeader id schema (perform h m w c).0
  unfolding save
  perform-HasHeader h m w (refuse why) a = a
  perform-HasHeader h m w nothing a = a
  perform-HasHeader h m w (save_step new back) a =
      if-HasHeader h.closed _ _
        (record {
          run_id = a.run_id;
          disk_id = a.disk_id;
          run_schema = a.run_schema;
          disk_schema = a.disk_schema;
        })
        (open_save-HasHeader h m new back w a)

  on_found-HasHeader :
      (f : Step → Change) (h : Handle) (m : String) (w : Write) (o : Option Step)
      → HasHeader id schema h
      → HasHeader id schema (on_found f h m w o).0
  on_found-HasHeader f h m w none a = a
  on_found-HasHeader f h m w (some s) a = perform-HasHeader h m w (f s) a

  pub calls-HasHeader :
      (env : Env) (h : Handle) (ops : List (String × LedgerOp × Write))
      → HasHeader id schema h
      → HasHeader id schema (calls env h ops)
  unfolding calls call on_step
  calls-HasHeader env h [] a = a
  calls-HasHeader env h ((m, op, w) ∷ rest) a =
      calls-HasHeader env (call env h m op w).0 rest
        (on_found-HasHeader (change_of env op) h m w (find_step m h.run.steps) a)
