-- ===== src/Lock/Pairs.antt =====
-- When two entries of the lock table (src/lock.h, the compatibility matrix) may stand together.
use db_hobby.Base.{
  ℕ, zero, suc, ◌≡◌, Bool, false, ◌&&◌, ◌||◌, not, List, [], ◌∷◌, ◌++◌, arith, ◌==◌, set, All,
}
use db_hobby.Lock.{LockEntry, is_x, name_eq}
use db_hobby.Lock.Names.{name_eq_iff}

-- Both are held, on one object, by one transaction or with an exclusive mode among them.
abbrev pub clash : LockEntry → LockEntry → Bool
clash e f =
    not (e.txn == 0)
    && not (f.txn == 0)
    && (e.key == f.key)
    && name_eq e.table f.table
    && (e.txn == f.txn || is_x e.mode || is_x f.mode)

abbrev pub Avoids : LockEntry → List LockEntry → Type 0
Avoids v = All (λ e. clash e v ≡ false)

-- No two entries clash: a transaction has one entry for an object, and an exclusive entry is alone.
abbrev pub IsCompatible : List LockEntry → Type 0
IsCompatible [] = Unit
IsCompatible (e ∷ es) = Avoids e es × IsCompatible es

clash_comm : (e f : LockEntry) → clash e f ≡ false → clash f e ≡ false
clash_comm e f h = ground (arith, name_eq_iff e.table f.table, name_eq_iff f.table e.table)

abbrev AvoidsBut : LockEntry → ℕ → List LockEntry → Type 0
AvoidsBut v i [] = Unit
AvoidsBut v zero (e ∷ es) = Avoids v es
AvoidsBut v (suc i) (e ∷ es) = (clash e v ≡ false) × AvoidsBut v i es

pub AvoidsBut-of_Avoids :
    (v : LockEntry) (i : ℕ) (es : List LockEntry) → Avoids v es → AvoidsBut v i es
AvoidsBut-of_Avoids v i [] h = tt
AvoidsBut-of_Avoids v zero (e ∷ es) h = h.1
AvoidsBut-of_Avoids v (suc i) (e ∷ es) h = (h.0, AvoidsBut-of_Avoids v i es h.1)

Avoids-set :
    (v x : LockEntry) (i : ℕ) (es : List LockEntry)
    → clash v x ≡ false
    → Avoids x es
    → Avoids x (set es i v)
Avoids-set v x i [] h a = a
Avoids-set v x zero (e ∷ es) h a = (h, a.1)
Avoids-set v x (suc i) (e ∷ es) h a = (a.0, Avoids-set v x i es h a.1)

Avoids-append :
    (x v : LockEntry) (es : List LockEntry)
    → clash v x ≡ false
    → Avoids x es
    → Avoids x (es ++ v ∷ [])
Avoids-append x v [] h a = (h, tt)
Avoids-append x v (e ∷ es) h a = (a.0, Avoids-append x v es h a.1)

pub IsCompatible-set :
    (v : LockEntry) (i : ℕ) (es : List LockEntry)
    → AvoidsBut v i es
    → IsCompatible es
    → IsCompatible (set es i v)
IsCompatible-set v i [] h c = c
IsCompatible-set v zero (e ∷ es) h c = (h, c.1)
IsCompatible-set v (suc i) (e ∷ es) h c =
    (Avoids-set v e i es (clash_comm e v h.0) c.0, IsCompatible-set v i es h.1 c.1)

pub IsCompatible-append :
    (v : LockEntry) (es : List LockEntry)
    → Avoids v es
    → IsCompatible es
    → IsCompatible (es ++ v ∷ [])
IsCompatible-append v [] h c = (tt, tt)
IsCompatible-append v (e ∷ es) h c =
    (Avoids-append e v es (clash_comm e v h.0) c.0, IsCompatible-append v es h.1 c.1)
