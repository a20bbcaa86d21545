-- ===== src/LeaderDetector/Calls.antt =====
-- The requests that paxos-wasm/core/leader-detector/src/leader-detector.rs serves, in any order.
use wasm_master.Common.{
  ℕ, Bool, true, false, not, Option, none, some, List, [], ◌∷◌, ◌≡◌, refl, sym, ap, ◌∙◌, subst, ◌≢◌,
  ◌⊎◌, ◌↔◌, inl, inr, arith, ◌==◌, select, if◌then◌else◌, has, All-both, All-has, Bool-cases,
}
use wasm_master.Common.KeyMap
use wasm_master.Common.KeyMap.{KeyMap, get-insert, get-nil}
use wasm_master.Types.{Node}
use wasm_master.LeaderDetector.{
  LeaderDetector, opt_eq, is_suspected, max_with, max_of, recompute_leader, may_propose, unwrap_or,
  proposer_ids, unsuspected, higher, initial_leader, new, announce, mark, suspect, restore,
}
use wasm_master.LeaderDetector.Election.{IsLeader, IsLeader-max}

-- The two requests of the failure detector.
pub data Call : Type 0 where
  down up : ℕ → Call

abbrev pub call : Call → LeaderDetector → Option ℕ × LeaderDetector
call (down n) d = suspect n d
call (up n) d = restore n d

unfoldable pub call_all : List Call → LeaderDetector → LeaderDetector
call_all [] d = d
call_all (c ∷ cs) d = call_all cs (call c d).1

abbrev pub put : ℕ → Bool → (ℕ → Bool) → ℕ → Bool
put n b f k = if n == k then b else f k

-- Which ids are down after the calls.
abbrev pub set_down : Call → (ℕ → Bool) → (ℕ → Bool)
set_down (down n) f = put n true f
set_down (up n) f = put n false f

unfoldable pub down_after : List Call → (ℕ → Bool) → ℕ → Bool
down_after [] f = f
down_after (c ∷ cs) f = down_after cs (set_down c f)

-- The detector agrees with `f` on the ids of the proposers, and its last leader is up to date.
abbrev pub Agrees : (ℕ → Bool) → List ℕ → LeaderDetector → Type 0
Agrees f ids d =
    (d.proposers ≡ ids)
    × ((k : ℕ) → has k ids ≡ true → is_suspected d.suspected k ≡ f k)
    × (d.last_leader ≡ recompute_leader d)

-- What is announced: the new leader, if there is one and it differs from the last.
abbrev pub IsAnnounced : Option ℕ → Option ℕ → Option ℕ → Type 0
IsAnnounced before after none = (after ≡ before) ⊎ (after ≡ none)
IsAnnounced before after (some m) = (after ≡ some m) × (before ≢ some m)

opt_eq_iff : (a b : Option ℕ) → (opt_eq a b ≡ true) ↔ (a ≡ b)
opt_eq_iff none none = ground arith
opt_eq_iff none (some b) = ground arith
opt_eq_iff (some a) none = ground arith
opt_eq_iff (some a) (some b) = ground arith

announce_state :
    (o : Option ℕ) (d : LeaderDetector) → (announce o d).1 ≡ record d { last_leader = o }
announce_state o d = ground (arith, opt_eq_iff o d.last_leader)

announce_reply : (o : Option ℕ) (d : LeaderDetector) → IsAnnounced d.last_leader o (announce o d).0
announce_reply none d = elim (Bool-cases (opt_eq none d.last_leader)) [
  | inl e ↦ rw e (inr refl)
  | inr e ↦ rw e (inr refl)
]
announce_reply (some m) d = elim (Bool-cases (opt_eq (some m) d.last_leader)) [
  | inl e ↦ rw e (inl ((opt_eq_iff (some m) d.last_leader).0 e))
  | inr e ↦ rw e (refl, λ h. ground (arith, opt_eq_iff (some m) d.last_leader))
]

-- The common body of `suspect` and `restore`.
abbrev respond : ℕ → Bool → LeaderDetector → Option ℕ × LeaderDetector
respond node b d =
    if not (has node d.proposers)
    then (none, d)
    else announce (recompute_leader (mark node b d)) (mark node b d)

set_listed :
    (n k : ℕ) (b : Bool) (m : KeyMap Bool) (f : ℕ → Bool)
    → is_suspected m k ≡ f k
    → is_suspected (KeyMap.insert n b m) k ≡ put n b f k
set_listed n k b m f h = ground (arith, get-insert n k b m)

unlisted_other : (n k : ℕ) (ids : List ℕ) → has n ids ≡ false → has k ids ≡ true → (n == k) ≡ false
unlisted_other n k [] u h = ground arith
unlisted_other n k (x ∷ ids) u h = ground (arith, unlisted_other n k ids)

respond-Agrees :
    (n : ℕ) (b : Bool) (f : ℕ → Bool) (ids : List ℕ) (d : LeaderDetector)
    → Agrees f ids d
    → Agrees (put n b f) ids (respond n b d).1
unfolding recompute_leader
respond-Agrees n b f ids d (same, agree, last) = elim (Bool-cases (has n d.proposers)) [
  | inl listed ↦
      let marked = mark n b d in
      let o = recompute_leader marked in
      let st : (respond n b d).1 ≡ record marked { last_leader = o } =
        rw listed (announce_state o marked) in
      subst (Agrees (put n b f) ids) (sym st)
        (same, λ k h. set_listed n k b d.suspected f (agree k h), refl)
  | inr unlisted ↦ rw unlisted (
    same,
    λ k h.
        let other : (n == k) ≡ false =
          unlisted_other n k ids (ap (has n) (sym same) ∙ unlisted) h in
        rw other (agree k h),
    last,
  )
]

respond_announces :
    (n : ℕ) (b : Bool) (d : LeaderDetector)
    → IsAnnounced d.last_leader (respond n b d).1.last_leader (respond n b d).0
respond_announces n b d = elim (Bool-cases (has n d.proposers)) [
  | inl listed ↦
      let marked = mark n b d in
      let o = recompute_leader marked in
      rw listed (
        subst (λ x. IsAnnounced d.last_leader x (announce o marked).0)
          (sym (ap (λ (q : LeaderDetector). q.last_leader) (announce_state o marked)))
          (announce_reply o marked))
  | inr unlisted ↦ rw unlisted (inl refl)
]

-- A request answers the new leader exactly if there is one and it is not the leader of before; if
-- it answers nothing, the leader is the one of before, or there is none any more.
pub call_announces :
    (c : Call) (d : LeaderDetector)
    → IsAnnounced d.last_leader (call c d).1.last_leader (call c d).0
unfolding suspect restore
call_announces (down n) d = respond_announces n true d
call_announces (up n) d = respond_announces n false d

pub call-Agrees :
    (c : Call) (f : ℕ → Bool) (ids : List ℕ) (d : LeaderDetector)
    → Agrees f ids d
    → Agrees (set_down c f) ids (call c d).1
unfolding suspect restore
call-Agrees (down n) f ids d a = respond-Agrees n true f ids d a
call-Agrees (up n) f ids d a = respond-Agrees n false f ids d a

call_all-Agrees :
    (cs : List Call) (f : ℕ → Bool) (ids : List ℕ) (d : LeaderDetector)
    → Agrees f ids d
    → Agrees (down_after cs f) ids (call_all cs d)
unfolding call_all down_after
call_all-Agrees [] f ids d a = a
call_all-Agrees (c ∷ cs) f ids d a =
    call_all-Agrees cs (set_down c f) ids (call c d).1 (call-Agrees c f ids d a)

higher-max : (o : Option ℕ) (x : ℕ) → higher o x ≡ max_with o x
higher-max none x = refl
higher-max (some m) x = ground arith

initial_leader-max : (o : Option ℕ) (ids : List ℕ) → initial_leader o ids ≡ max_of o ids
initial_leader-max o [] = refl
initial_leader-max o (x ∷ ids) =
    initial_leader-max (higher o x) ids ∙ ap (λ m. max_of m ids) (higher-max o x)

all_selected : (q : ℕ → Bool) (ids : List ℕ) → ((k : ℕ) → q k ≡ true) → select q ids ≡ ids
all_selected q [] h = refl
all_selected q (x ∷ ids) h = rw (h x) (ap (λ l. x ∷ l) (all_selected q ids h))

put_same : (n k : ℕ) → put n false (λ i. false) k ≡ false
put_same n k = ground arith

unsuspected_none :
    (ns : List Node) (m : KeyMap Bool)
    → ((k : ℕ) → is_suspected m k ≡ false)
    → (k : ℕ) → is_suspected (unsuspected m ns) k ≡ false
unsuspected_none [] m h k = h k
unsuspected_none (n ∷ ns) m h k = elim (Bool-cases (may_propose n.role)) [
  | inl able ↦ rw able (
      unsuspected_none ns (KeyMap.insert n.node_id false m)
        (λ j. set_listed n.node_id j false m (λ i. false) (h j) ∙ put_same n.node_id j) k)
  | inr unable ↦ rw unable (unsuspected_none ns m h k)
]

pub new-Agrees :
    (all : List Node) (local : Node) → Agrees (λ k. false) (proposer_ids all) (new all local)
unfolding new recompute_leader
new-Agrees all local =
    let none_down = unsuspected_none all [] (λ k. ap (λ o. unwrap_or o false) (get-nil k)) in
    (
      refl,
      λ k h. none_down k,
      initial_leader-max none (proposer_ids all)
          ∙ ap (max_of none) (sym (all_selected _ (proposer_ids all) (λ k. ap not (none_down k)))),
    )

pub IsLeader-agree :
    (f g : ℕ → Bool) (ids : List ℕ) (o : Option ℕ)
    → ((k : ℕ) → has k ids ≡ true → f k ≡ g k)
    → IsLeader f ids o
    → IsLeader g ids o
IsLeader-agree f g ids none agree h =
    All-both (λ k listed d. sym (agree k listed) ∙ d) ids (All-has ids) h
IsLeader-agree f g ids (some m) agree (listed, alive, highest) = (
  listed,
  sym (agree m listed) ∙ alive,
  All-both (λ k l le d. le (agree k l ∙ d)) ids (All-has ids) highest,
)

pub Agrees-IsLeader :
    (f : ℕ → Bool) (ids : List ℕ) (d : LeaderDetector)
    → Agrees f ids d
    → IsLeader f ids d.last_leader
unfolding recompute_leader
Agrees-IsLeader f ids d (same, agree, last) =
    let f_agrees : (k : ℕ) → has k d.proposers ≡ true → is_suspected d.suspected k ≡ f k =
      λ k h. agree k (ap (has k) (sym same) ∙ h) in
    let best = IsLeader-max (is_suspected d.suspected) _ d.proposers refl in
    subst (λ l. IsLeader f l d.last_leader) same
      (subst (IsLeader f d.proposers) (sym last) (
        IsLeader-agree (is_suspected d.suspected) f d.proposers (recompute_leader d) f_agrees best))

-- After any requests to suspect and to restore nodes, the leader that a new detector has announced
-- last is, of the ids of the nodes that may propose, the highest whose last request was not to
-- suspect it, and there is none exactly if all are suspected.
pub call_all-new-IsLeader :
    (all : List Node) (local : Node) (cs : List Call)
    → IsLeader
        (down_after cs (λ k. false))
        (proposer_ids all)
        (call_all cs (new all local)).last_leader
call_all-new-IsLeader all local cs =
    Agrees-IsLeader (down_after cs (λ k. false)) (proposer_ids all) (call_all cs (new all local))
      (call_all-Agrees cs (λ k. false) (proposer_ids all) (new all local) (new-Agrees all local))

pub Agrees-same :
    (f g : ℕ → Bool) (ids : List ℕ) (d : LeaderDetector)
    → ((k : ℕ) → f k ≡ g k)
    → Agrees f ids d
    → Agrees g ids d
Agrees-same f g ids d eq (same, agree, last) = (same, λ k h. agree k h ∙ eq k, last)
