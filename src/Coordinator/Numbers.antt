-- ===== src/Coordinator/Numbers.antt =====
-- The command numbers of backend/app/services/v2_operations.py, after any history.
use smd_web_hmi.Prelude.{
  ℕ, ◌≤◌, ◌+◌, ◌-◌, ◌≡◌, sym, false, Option, none, some, List, [], ◌∷◌, map, arith,
}
use mathlib.Core.Path.{subst}
use smd_web_hmi.Device.Command.{Request, Command}
use smd_web_hmi.Service.Ownership.{Role}
use smd_web_hmi.Coordinator.Model.{Identity, Db, Coordinator, max_sequence}
use smd_web_hmi.Coordinator.Keeps.{Core, core, AreKept-core, AllWell-false}
use smd_web_hmi.Coordinator.Trace.{Reach, here, next}
use smd_web_hmi.Coordinator.Growth.{Grown, kept, added, IsRaised, Step-Grown}

-- All intents have the epoch, and their numbers run down from the newest, from `last` to above 0.
abbrev pub AreNumbered : ℕ → ℕ → List Core → Type 0
AreNumbered epoch last [] = Unit {0}
AreNumbered epoch last (c ∷ cs) =
    (c.controller_epoch ≡ epoch)
    × (1 ≤ c.command_seq)
    × (c.command_seq ≤ last)
    × AreNumbered epoch (c.command_seq - 1) cs

-- There are no intents without an identity, and its number is one of 64 bits.
abbrev pub HasNumbers : Option Identity → List Core → Type 0
HasNumbers none cs = cs ≡ []
HasNumbers (some i) cs = AreNumbered i.controller_epoch i.last_seq cs × (i.last_seq ≤ max_sequence)

AreNumbered-raise :
    (epoch : ℕ) (cs : List Core) {last later : ℕ}
    → last ≤ later
    → AreNumbered epoch last cs
    → AreNumbered epoch later cs
AreNumbered-raise epoch [] le n = tt
AreNumbered-raise epoch (c ∷ cs) le (e, one, n, rest) = (e, one, omega (arith, le, n), rest)

HasNumbers-raise :
    (i j : Option Identity) (cs : List Core) → IsRaised i j → HasNumbers i cs → HasNumbers j cs
HasNumbers-raise none none cs r h = h
HasNumbers-raise none (some j) cs r h =
    (subst (AreNumbered j.controller_epoch j.last_seq) (sym h) tt, omega (arith, r))
HasNumbers-raise (some i) none cs r h = cc
HasNumbers-raise (some i) (some j) cs (e, le, most) (n, fits) = (
  subst (λ x. AreNumbered x j.last_seq cs) (sym e) (AreNumbered-raise i.controller_epoch cs le n),
  omega (arith, most, fits),
)

Grown-HasNumbers :
    {db db' : Db}
    → Grown false db db'
    → HasNumbers db.identity (map core db.operations)
    → HasNumbers db'.identity (map core db'.operations)
Grown-HasNumbers {db} {db'} (kept rows raised) h =
    subst (HasNumbers db'.identity) (sym (AreKept-core false db.operations db'.operations rows))
      (HasNumbers-raise db.identity db'.identity (map core db.operations) raised h)
Grown-HasNumbers {db} {db'} (added r i free open_ is_i epoch number fits rows identity) h =
    let (n, le) = subst (λ o. HasNumbers o (map core db.operations)) is_i h in
    subst (λ o. HasNumbers o (map core db'.operations)) (sym identity)
      (subst (λ rs. HasNumbers (some (record i { last_seq = i.last_seq + 1 })) (map core rs))
        (sym rows)
        (
          (
            epoch,
            omega (arith, number),
            omega (arith, number),
            AreNumbered-raise i.controller_epoch (map core db.operations) (omega (arith, number)) n,
          ),
          omega (arith, fits),
        ))

-- From tables in which this holds, such as those without an identity and without an intent, it holds after
-- any transactions: the numbers of the intents grow in the order of the intents, so no two are the same,
-- none is 0 or above the last number of the identity, which is within 64 bits, and all have its epoch.
pub Reach-HasNumbers :
    (business : Request → ℕ → Role → ℕ) (command_digest : Command → ℕ) (k : Coordinator)
    {db db' : Db}
    → Reach business command_digest k db db'
    → HasNumbers db.identity (map core db.operations)
    → HasNumbers db'.identity (map core db'.operations)
Reach-HasNumbers business command_digest k here h = h
Reach-HasNumbers business command_digest k (next r s) h =
    Grown-HasNumbers (Step-Grown false business command_digest k (AllWell-false _) s (λ c. cc))
      (Reach-HasNumbers business command_digest k r h)
