-- ===== src/KvStore/Refinement.antt =====
-- The state machine that paxos-wasm/core/kv-store/src/kv-store.rs implements: a table of values by
-- key, without order or representation, and the value of a key as its last write left it.
use text.Mathlib.Text.{◌==◌ as str_eq}
use mathlib.Core.List.{reverse, reverse-append, append-nil, append_assoc}
use wasm_master.Common.{
  String, Option, none, some, List, [], ◌∷◌, ◌++◌, ◌≡◌, refl, sym, ◌∙◌, ap, if◌then◌else◌,
}
use wasm_master.Types.{Cmd, CmdResult}
use wasm_master.Types.Operation.{get, set, remove, clear, demo}
use wasm_master.KvStore.{KvStore, new, apply}
use wasm_master.KvStore.Dict
use wasm_master.KvStore.Dict.{get-insert, get-remove, get-nil}

-- The abstract state.
abbrev pub Table : Type 0
Table = String → Option String

abbrev pub view : KvStore → Table
view s = λ k. Dict.get k s.store

-- The new state of a table, and the reply.
abbrev pub update : Cmd → Table → Table
update (some (set kv)) t = λ k. if str_eq kv.key k then some kv.value else t k
update (some (remove key)) t = λ k. if str_eq key k then none else t k
update (some clear) t = λ k. none
update (some (get key)) t = t
update (some demo) t = t
update none t = t

abbrev pub reply : Cmd → Table → CmdResult
reply (some (get key)) t = CmdResult.cmd_value (t key)
reply (some (set kv)) t = CmdResult.cmd_value none
reply (some (remove key)) t = CmdResult.cmd_value (t key)
reply (some clear) t = CmdResult.cmd_value none
reply (some demo) t = CmdResult.cmd_value (some "Demo")
reply none t = CmdResult.no_op

unfoldable pub run_table : List Cmd → Table → List CmdResult × Table
run_table [] t = ([], t)
run_table (c ∷ cs) t = let (rs, t') = run_table cs (update c t) in (reply c t ∷ rs, t')

-- The commands in their order, with their results.
unfoldable pub apply_all : List Cmd → KvStore → List CmdResult × KvStore
apply_all [] s = ([], s)
apply_all (c ∷ cs) s = let (r, s') = apply c s in let (rs, s'') = apply_all cs s' in (r ∷ rs, s'')

reply-apply : (c : Cmd) (s : KvStore) → (apply c s).0 ≡ reply c (view s)
unfolding apply
reply-apply none s = refl
reply-apply (some (get key)) s = refl
reply-apply (some (set kv)) s = refl
reply-apply (some (remove key)) s = refl
reply-apply (some clear) s = refl
reply-apply (some demo) s = refl

view-apply : (c : Cmd) (s : KvStore) → view (apply c s).1 ≡ update c (view s)
unfolding apply
view-apply none s = refl
view-apply (some (get key)) s = refl
view-apply (some (set kv)) s = λ i k. get-insert kv.key k kv.value s.store i
view-apply (some (remove key)) s = λ i k. get-remove key k s.store i
view-apply (some clear) s = λ i k. get-nil k i
view-apply (some demo) s = refl

history-apply : (c : Cmd) (s : KvStore) → (apply c s).1.history ≡ s.history ++ c ∷ []
unfolding apply
history-apply none s = refl
history-apply (some (get key)) s = refl
history-apply (some (set kv)) s = refl
history-apply (some (remove key)) s = refl
history-apply (some clear) s = refl
history-apply (some demo) s = refl

-- Applied one after the other, the commands give the results and the table that the abstract state
-- machine gives from the same table, and they are the history's new end, in their order.
pub apply_all-run_table :
    (cs : List Cmd) (s : KvStore)
    → let (rs, s') = apply_all cs s in
      let (spec_rs, spec_t) = run_table cs (view s) in
      (rs ≡ spec_rs) × (view s' ≡ spec_t) × (s'.history ≡ s.history ++ cs)
unfolding apply_all run_table
apply_all-run_table [] s = (refl, refl, sym (append-nil s.history))
apply_all-run_table (c ∷ cs) s =
    let (rs, t, h) = apply_all-run_table cs (apply c s).1 in
    let v = view-apply c s in
    (
      ap (λ l. (apply c s).0 ∷ l) (rs ∙ ap (λ t. (run_table cs t).0) v)
          ∙ ap (λ r. r ∷ (run_table cs (update c (view s))).0) (reply-apply c s),
      t ∙ ap (λ t. (run_table cs t).1) v,
      h ∙ ap (λ l. l ++ cs) (history-apply c s) ∙ append_assoc s.history (c ∷ []) cs,
    )

-- What the last write to a key has left, the last command first.
unfoldable pub last_write : String → List Cmd → Option String
last_write k [] = none
last_write k (some (set kv) ∷ older) =
    let rest = last_write k older in if str_eq kv.key k then some kv.value else rest
last_write k (some (remove key) ∷ older) =
    let rest = last_write k older in if str_eq key k then none else rest
last_write k (some clear ∷ older) = none
last_write k (_ ∷ older) = last_write k older

-- Every key holds what its last write in the history has left.
abbrev pub IsReplayed : KvStore → Type 0
IsReplayed s = (k : String) → Dict.get k s.store ≡ last_write k (reverse s.history)

last_write_cons :
    (c : Cmd) (k : String) (t : Table) (older : List Cmd)
    → t k ≡ last_write k older
    → update c t k ≡ last_write k (c ∷ older)
unfolding last_write
last_write_cons none k t older h = h
last_write_cons (some (get key)) k t older h = h
last_write_cons (some (set kv)) k t older h =
    ap (λ o. if str_eq kv.key k then some kv.value else o) h
last_write_cons (some (remove key)) k t older h = ap (λ o. if str_eq key k then none else o) h
last_write_cons (some clear) k t older h = refl
last_write_cons (some demo) k t older h = h

apply-IsReplayed : (c : Cmd) (s : KvStore) → IsReplayed s → IsReplayed (apply c s).1
apply-IsReplayed c s h k =
    ap (λ (t : Table). t k) (view-apply c s)
    ∙ last_write_cons c k (view s) (reverse s.history) (h k)
    ∙ ap (last_write k) (sym (reverse-append s.history (c ∷ [])))
    ∙ ap (λ l. last_write k (reverse l)) (sym (history-apply c s))

pub new-IsReplayed : IsReplayed new
unfolding last_write
new-IsReplayed k = get-nil k

pub apply_all-IsReplayed :
    (cs : List Cmd) (s : KvStore) → IsReplayed s → IsReplayed (apply_all cs s).1
unfolding apply_all
apply_all-IsReplayed [] s h = h
apply_all-IsReplayed (c ∷ cs) s h = apply_all-IsReplayed cs (apply c s).1 (apply-IsReplayed c s h)

-- After any commands, a new store holds for each key the value of the last `set` of it that no
-- `remove` of it and no `clear` follows, as the list of the commands tells, and no value for a key
-- without such a `set`.
pub last_write_lem :
    (cs : List Cmd) (k : String) → Dict.get k (apply_all cs new).1.store ≡ last_write k (reverse cs)
last_write_lem cs k =
    apply_all-IsReplayed cs new new-IsReplayed k
    ∙ ap (λ l. last_write k (reverse l)) (apply_all-run_table cs new).2
