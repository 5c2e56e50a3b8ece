-- ===== src/Txn/Repeatable.antt =====
-- src/db.c: snapshot isolation. What a session in a transaction takes for committed does not change
-- while the transaction lasts, whatever statements run meanwhile.
use db_hobby.Base.{
  ℕ, ◌≡◌, ap, sym, ◌≢◌, ◌<◌, ◌≤◌, ◌+◌, true, false, List, [], ◌∷◌, inl, inr, arith, ◌==◌, update,
  Bool-cases, Option,
}
use mathlib.Core.Path.{subst}
use db_hobby.Txn.{
  DbSession, Database, Statement, Engine, db_max_sessions, session, snapshot_hides, open_others,
  row_visible, db_open,
}
use db_hobby.Txn.Exec.{db_exec}
use db_hobby.Txn.Snapshot.{seen, seen-hidden, hides-new, hides-noted, open_others_complete}
use db_hobby.Txn.Isolation.{
  TxnState, frame, Effect, quiet, switched, alone, begun, closed, exec-Effect,
}

-- The session `i` cannot take for committed what the other open transactions do, nor what a later
-- one does.
unfoldable pub Shielded : TxnState → ℕ → Type 0
Shielded f i =
    (f.sessions i).in_txn ≡ true
    → ((f.sessions i).snap_next ≤ f.next_txn)
      × ((j : ℕ)
          → j < db_max_sessions
          → j ≢ i
          → (f.sessions j).in_txn ≡ true
          → snapshot_hides (f.sessions i) (f.sessions j).txn ≡ true)

unfoldable pub IsIsolated : TxnState → Type 0
IsIsolated f = (f.cur_session < db_max_sessions) × ((i : ℕ) → i < db_max_sessions → Shielded f i)

alone-Shielded :
    (f : TxnState) (i : ℕ) → Shielded f i → Shielded (record f { next_txn = f.next_txn + 1 }) i
unfolding Shielded
alone-Shielded f i s h = (omega (arith, (s h).0), (s h).1)

closed-Shielded :
    (f : TxnState) (i : ℕ)
    → Shielded f i
    → Shielded
        (record f {
          sessions =
              update f.sessions f.cur_session
                (record (f.sessions f.cur_session) { in_txn = false });
        })
        i
unfolding Shielded
closed-Shielded f i s h = (ground (arith, s), λ j l n o. ground (arith, s, (s _).1 j l n))

begun-Shielded :
    (f : TxnState) (i : ℕ)
    → Shielded f i
    → Shielded
        (record f {
          next_txn = f.next_txn + 1;
          sessions = update f.sessions f.cur_session (record {
            in_txn = true;
            txn = f.next_txn;
            snap_next = f.next_txn + 1;
            snap_inprog = open_others f.sessions f.cur_session db_max_sessions;
          });
        })
        i
unfolding Shielded
begun-Shielded f i s h = (
  ground (arith, s),
  λ j l n o. elim (Bool-cases (i == f.cur_session)) [
    | inl p ↦
        let noted = open_others f.sessions f.cur_session db_max_sessions in
        let new : DbSession = record {
          in_txn = true;
          txn = f.next_txn;
          snap_next = f.next_txn + 1;
          snap_inprog = noted;
        } in
        ground (
          arith,
          hides-noted new (f.sessions j).txn,
          open_others_complete f.sessions f.cur_session db_max_sessions j l,
        )
    | inr p ↦ elim (Bool-cases (j == f.cur_session)) [
      | inl q ↦ ground (arith, s, hides-new (f.sessions i) f.next_txn)
      | inr q ↦ ground (arith, s, (s _).1 j l n)
    ]
  ],
)

module _ {S : Type 0} {a b : Database S} where
  Effect-IsIsolated : Effect a b → IsIsolated (frame a) → IsIsolated (frame b)
  unfolding IsIsolated Shielded
  Effect-IsIsolated (quiet f l) (c, s) = subst IsIsolated (sym f) (c, s)
  Effect-IsIsolated (switched n h f l) (c, s) = subst IsIsolated (sym f) (h, s)
  Effect-IsIsolated (alone f l) (c, s) =
      subst IsIsolated (sym f) (c, λ i h. alone-Shielded (frame a) i (s i h))
  Effect-IsIsolated (begun o f l) (c, s) =
      subst IsIsolated (sym f) (c, λ i h. begun-Shielded (frame a) i (s i h))
  Effect-IsIsolated (closed o f l) (c, s) =
      subst IsIsolated (sym f) (c, λ i h. closed-Shielded (frame a) i (s i h))

module _ {S V : Type 0} (e : Engine S V) where
  -- The invariant that the snapshots rest on: every statement keeps it.
  pub exec-IsIsolated :
      (db : Database S) (sql : Option Statement)
      → IsIsolated (frame db)
      → IsIsolated (frame (db_exec e db sql).0)
  exec-IsIsolated db sql v = Effect-IsIsolated (exec-Effect e db sql) v

  unfoldable pub exec_all : Database S → List (Option Statement) → Database S
  exec_all db [] = db
  exec_all db (sql ∷ rest) = exec_all (db_exec e db sql).0 rest

  exec_all-IsIsolated :
      (db : Database S) (sqls : List (Option Statement))
      → IsIsolated (frame db)
      → IsIsolated (frame (exec_all db sqls))
  unfolding exec_all
  exec_all-IsIsolated db [] v = v
  exec_all-IsIsolated db (sql ∷ rest) v =
      exec_all-IsIsolated (db_exec e db sql).0 rest (exec-IsIsolated db sql v)

  -- After any statements on a database just opened: no session in a transaction has a snapshot
  -- through which it could see what another open transaction or a later one commits.
  pub run-IsIsolated :
      (storage : S) (saved : ℕ) (sqls : List (Option Statement))
      → IsIsolated (frame (exec_all (db_open storage saved) sqls))
  unfolding db_open IsIsolated Shielded
  run-IsIsolated storage saved sqls =
      exec_all-IsIsolated (db_open storage saved) sqls (omega arith, λ i h o. absurd (ground arith))

  Effect-seen :
      (a b : Database S) (i x : ℕ)
      → Effect a b
      → IsIsolated (frame a)
      → i < db_max_sessions
      → (a.sessions i).in_txn ≡ true
      → (b.sessions i).in_txn ≡ true
      → seen b i x ≡ seen a i x
  unfolding IsIsolated Shielded
  Effect-seen a b i x (quiet f l) (c, s) h o p =
      seen-hidden b a i a.next_txn x (ap (λ (g : TxnState). g.sessions i) f) o
        (ap (λ (g : TxnState). g.committed_below) f)
        (hides-new (a.sessions i) a.next_txn (s i h o).0) (λ n. l x)
  Effect-seen a b i x (switched n k f l) (c, s) h o p =
      seen-hidden b a i a.next_txn x (ap (λ (g : TxnState). g.sessions i) f) o
        (ap (λ (g : TxnState). g.committed_below) f)
        (hides-new (a.sessions i) a.next_txn (s i h o).0) (λ n. l x)
  Effect-seen a b i x (alone f l) (c, s) h o p =
      seen-hidden b a i a.next_txn x (ap (λ (g : TxnState). g.sessions i) f) o
        (ap (λ (g : TxnState). g.committed_below) f)
        (hides-new (a.sessions i) a.next_txn (s i h o).0) (l x)
  Effect-seen a b i x (begun k f l) (c, s) h o p =
      seen-hidden b a i a.next_txn x (ground (arith, k, o, ap (λ (g : TxnState). g.sessions i) f)) o
        (ap (λ (g : TxnState). g.committed_below) f)
        (hides-new (a.sessions i) a.next_txn (s i h o).0) (l x)
  Effect-seen a b i x (closed k f l) (c, s) h o p = elim (Bool-cases (i == a.cur_session)) [
    | inl q ↦ absurd (ground (arith, p, ap (λ (g : TxnState). g.sessions i) f))
    | inr q ↦
        seen-hidden b a i (session a).txn x (ground (arith, ap (λ (g : TxnState). g.sessions i) f))
          o (ap (λ (g : TxnState). g.committed_below) f)
          ((s i h o).1 a.cur_session c (ground arith) k) (l x)
  ]

  -- While the session `i` stays in its transaction, a statement of any session leaves the row
  -- versions that `i` sees as they were: commits, rollbacks and later transactions do not show.
  pub repeatable_read :
      (db : Database S) (sql : Option Statement) (i xmin xmax my_txn : ℕ)
      → IsIsolated (frame db)
      → i < db_max_sessions
      → (db.sessions i).in_txn ≡ true
      → ((db_exec e db sql).0.sessions i).in_txn ≡ true
      → row_visible (record (db_exec e db sql).0 { cur_session = i }) xmin xmax my_txn
        ≡ row_visible (record db { cur_session = i }) xmin xmax my_txn
  unfolding row_visible
  repeatable_read db sql i xmin xmax my_txn v h o p =
      let after = (db_exec e db sql).0 in
      let same = λ (x : ℕ). Effect-seen db after i x (exec-Effect e db sql) v h o p in
      ground (arith, same xmin, same xmax)
