-- ===== src/Fs/Trans.antt =====
-- `begin_trans` and `commit_trans` (log.c) as calls on the file system.
use zv.Prelude.{ok, panic, waits}
use zv.Log.{begin_trans, commit_trans}
use zv.Fs.{M}

-- `begin_trans()`.
unfoldable pub begin_op : M (Unit {0})
begin_op s = elim (begin_trans s.log) [
  | ok l ↦ ok (tt, record s { log = l })
  | panic e ↦ panic e
  | waits ↦ waits
]

-- `commit_trans()`.
unfoldable pub commit_op : M (Unit {0})
commit_op s = let r = commit_trans s.log s.store in ok (tt, record s { log = r.0; store = r.1 })
