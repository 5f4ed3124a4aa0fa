-- ===== src/Engine/Shutdown.antt =====
-- Shutdown ends well once the kernel exits in time.
use gpu_rotation_engine.Base.{
  ℕ, zero, suc, ◌+◌, ◌<◌, ◌≡◌, refl, ◌∙◌, ap, sym, subst, Bool, true, false, Option, none, some,
  arith, if◌then◌else◌,
}
use gpu_rotation_engine.Engine.State.{EngineState}
use gpu_rotation_engine.Engine.Device.{Write, apply, apply_all}
use gpu_rotation_engine.Engine.Cuda.{
  Outcome, World, M, ◌>>◌, settled, EngineHandle, drain, next_call, memcpy_async, synchronize,
}
use gpu_rotation_engine.Engine.Cuda.Run.{
  Ends, returned, After, After-start, Ends-if, After-next_call, Ends-bind, Ends-gets, Ends-returned,
  settled-drain,
}
use gpu_rotation_engine.Engine.Cuda.Copy.{copy_accepted}
use gpu_rotation_engine.Engine.Lifecycle.{await_exit, engine_shutdown}

-- The kernel's stream is busy for `k` queries from call `c` on, and done at the next.
pub record ExitsAfter (runtime : ℕ → Outcome) (c k : ℕ) : Type 0 where
  pub busy :
      (j : ℕ) → j < k → ((runtime (c + j)).success ≡ false) × ((runtime (c + j)).not_ready ≡ true)
  pub done : (runtime (c + k)).success ≡ true

module _ {A : Type 0} (P : A → Type 0) where
  pick_then : (b : Bool) (x y : A) → b ≡ true → P x → P (if b then x else y)
  pick_then true x y e p = p
  pick_then false x y e p = cc

  pick_else : (b : Bool) (x y : A) → b ≡ false → P y → P (if b then x else y)
  pick_else true x y e p = cc
  pick_else false x y e p = p

-- The loop ended with the engine not running.
abbrev Exited : World → Option (Unit {0}) × World → Type 0
Exited w r =
    (r.0 ≡ some tt) × (r.1.running ≡ false) × (r.1.h_init ≡ w.h_init) × (settled r.1 ≡ settled w)

-- The same seen from the next call.
one_later :
    (runtime : ℕ → Outcome) (c k : ℕ) → ExitsAfter runtime c (suc k) → ExitsAfter runtime (suc c) k
one_later runtime c k x = record {
  busy = λ j l. (
    ap (λ n. (runtime n).success) (next j) ∙ (x.busy (suc j) (omega arith)).0,
    ap (λ n. (runtime n).not_ready) (next j) ∙ (x.busy (suc j) (omega arith)).1,
  );
  done = ap (λ n. (runtime n).success) (next k) ∙ x.done;
}
  where
    next : (j : ℕ) → suc c + j ≡ c + suc j
    next j = omega arith

await_exit-Exited :
    (n k : ℕ) (w : World) → k < n → ExitsAfter w.runtime w.calls k → Exited w (await_exit n w)
unfolding await_exit next_call drain
await_exit-Exited zero k w h x = absurd (omega arith)
await_exit-Exited (suc n) zero w h x =
    pick_then (Exited w) (w.runtime w.calls).success _ _
      (ap (λ c. (w.runtime c).success) here ∙ x.done)
      (refl, refl, refl, settled-drain (w.runtime w.calls).progress w)
  where
    here : w.calls ≡ w.calls + 0
    here = omega arith
await_exit-Exited (suc n) (suc k) w h x =
    let rest =
      await_exit-Exited n k (next_call w).1 (omega arith) (one_later w.runtime w.calls k x) in
    pick_else (Exited w) (w.runtime w.calls).success _ _
      (ap (λ c. (w.runtime c).success) here ∙ (x.busy 0 (omega arith)).0)
      (pick_then (Exited w) (w.runtime w.calls).not_ready _ _
        (ap (λ c. (w.runtime c).not_ready) here ∙ (x.busy 0 (omega arith)).1)
        (rest.0, rest.1, rest.2, rest.3 ∙ settled-drain (w.runtime w.calls).progress w))
  where
    here : w.calls ≡ w.calls + 0
    here = omega arith

module _ {w : World} {d : EngineState} {k : EngineHandle} {w' : World} (a : After w d k w') where
  sync_accepted :
      (w'.runtime w'.calls).success ≡ true
      → Ends (λ _ v. After w d k v × (v.calls ≡ suc w'.calls)) (λ _. ⊥) (synchronize w')
  unfolding synchronize next_call apply_all
  sync_accepted ok =
      Ends-if (w'.runtime w'.calls).success _ _ _
        (λ _. (
          record {
            settled_is = (After-next_call a).settled_is;
            handle_is = a.handle_is;
            runtime_is = a.runtime_is;
            calls_le = omega (arith, a.calls_le);
          },
          refl,
        ))
        (λ e. cc)

-- If the engine runs, the shutdown flag reaches the device, and the kernel exits within the next 1000
-- queries, then `engine_shutdown` succeeds: the engine is not running, the flag is up on the device and
-- the host's copy of the state is as it was.
pub engine_shutdown-stops :
    (k : ℕ) (w : World)
    → w.running ≡ true
    → (w.runtime w.calls).success ≡ true
    → (w.runtime (w.calls + 1)).success ≡ true
    → k < 1000
    → ExitsAfter w.runtime (w.calls + 2) k
    → ((engine_shutdown w).0 ≡ some tt)
      × ((engine_shutdown w).1.running ≡ false)
      × ((settled (engine_shutdown w).1).shutdown_flag ≡ 1)
      × ((engine_shutdown w).1.h_init ≡ w.h_init)
unfolding engine_shutdown apply
engine_shutdown-stops k w running first second small exits =
    let r = Ends-returned whole in (r.1, r.2.0, r.2.1, r.2.2)
  where
    Stopped : World → Type 0
    Stopped v = (v.running ≡ false) × ((settled v).shutdown_flag ≡ 1) × (v.h_init ≡ w.h_init)

    exited :
        {v : World} {r : Option (Unit {0}) × World}
        → After w (apply (Write.shutdown_flag 1) (settled w)) w.handle v
        → Exited v r
        → Ends (λ _. Stopped) (λ _. ⊥) r
    exited {r = (none, u)} a x = cc (x.0)
    exited {r = (some b, u)} a x = returned (
      x.1,
      ap (λ (s : EngineState). s.shutdown_flag) (x.3 ∙ a.settled_is),
      x.2 ∙ ap (λ h. h.h_init) a.handle_is,
    )

    wait :
        (v : World)
        → After w (apply (Write.shutdown_flag 1) (settled w)) w.handle v
        → v.calls ≡ w.calls + 2
        → Ends (λ _. Stopped) (λ _. ⊥) (await_exit 1000 v)
    wait v a c = exited a (await_exit-Exited 1000 k v small moved)
      where
        moved : ExitsAfter v.runtime v.calls k
        moved =
            subst (λ n. ExitsAfter v.runtime n k) (sym c)
              (subst (λ r. ExitsAfter r (w.calls + 2) k) (sym a.runtime_is) exits)

    stop :
        Ends
          (λ _. Stopped)
          (λ _. ⊥)
          ((memcpy_async (Write.shutdown_flag 1) >> (synchronize >> await_exit 1000)) w)
    stop =
        Ends-bind (memcpy_async _) _ w (copy_accepted (After-start w) (Write.shutdown_flag 1) first)
          (λ _ v (a, c).
            Ends-bind synchronize _ v (sync_accepted a (answer a (omega (arith, c)) second))
              (λ _ u (b, e). wait u b (omega (arith, c, e))))
      where
        answer :
            {v : World} {d : EngineState} {h : EngineHandle}
            → After w d h v
            → v.calls ≡ w.calls + 1
            → (w.runtime (w.calls + 1)).success ≡ true
            → (v.runtime v.calls).success ≡ true
        answer {v} a c ok =
            ap (λ r. (r v.calls).success) a.runtime_is ∙ ap (λ n. (w.runtime n).success) c ∙ ok

    whole : Ends (λ _. Stopped) (λ _. ⊥) (engine_shutdown w)
    whole = Ends-gets _ _ w (
        pick_then (λ (m : M (Unit {0})). Ends (λ _. Stopped) (λ _. ⊥) (m w)) w.running _ _ running
          stop)
