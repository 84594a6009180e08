-- ===== src/Registry/Shutdown.antt =====
-- Shutdown: registrations are refused, and waiting for the drain is right about its answer.
use netherbrain.Prelude.{String, true, List, [], ◌∷◌, ◌≡◌, refl, arith}
use netherbrain.Prelude.Dict
use netherbrain.Prelude.Dict.{Dict, get-set, get-pop}
use netherbrain.Registry.{
  RuntimeSession, Registry, is_empty, register, unregister, begin_shutdown, Call, registers,
  unregisters, shuts_down, step, run, wait_on_event, wait_until_drained,
}
use netherbrain.Registry.Occupancy.{IsValid, step-IsValid, begin_shutdown-IsValid}

is_empty-pop :
    (k : String) (m : Dict RuntimeSession) → is_empty m ≡ true → is_empty (Dict.pop k m) ≡ true
unfolding Dict.pop
is_empty-pop k [] h = refl
is_empty-pop k (e ∷ m) h = absurd (cc)

-- During shutdown no call ends it, and none brings a session into an empty registry.
step-shut :
    (r : Registry) (c : Call)
    → r.shutting_down ≡ true
    → ((step r c).shutting_down ≡ true)
      × (is_empty r.sessions ≡ true → is_empty (step r c).sessions ≡ true)
unfolding step register unregister begin_shutdown
step-shut r (registers s) h = (ground arith, λ e. ground arith)
step-shut r (unregisters k) h = (h, is_empty-pop k r.sessions)
step-shut r shuts_down h = (refl, λ e. e)

run-empty :
    (r : Registry) (cs : List Call)
    → r.shutting_down ≡ true
    → is_empty r.sessions ≡ true
    → is_empty (run r cs).sessions ≡ true
unfolding run
run-empty r [] h e = e
run-empty r (c ∷ cs) h e = run-empty (step r c) cs (step-shut r c h).0 ((step-shut r c h).1 e)

wait_on_event-run :
    (r : Registry) (cs : List Call)
    → IsValid r
    → r.shutting_down ≡ true
    → (wait_on_event r cs).1 ≡ is_empty (run r cs).sessions
unfolding wait_on_event run
wait_on_event-run r [] v h = v.drain
wait_on_event-run r (c ∷ cs) v h = ground (
  arith,
  v.drain,
  run-empty (step r c) cs (step-shut r c h).0,
  (step-shut r c h).1,
  wait_on_event-run (step r c) cs (step-IsValid r c v) (step-shut r c h).0,
)

-- Once shutdown has begun, waiting for the drain answers true exactly when every session has been
-- unregistered by the timeout, whatever other tasks call in the meantime.
pub wait-begin_shutdown :
    (r : Registry) (cs : List Call)
    → IsValid r
    → (wait_until_drained (begin_shutdown r) cs).1 ≡ is_empty (run (begin_shutdown r) cs).sessions
unfolding wait_until_drained
wait-begin_shutdown r cs v =
    let r' = begin_shutdown r in
    let shut : r'.shutting_down ≡ true = unfold begin_shutdown in refl in
    ground (arith, run-empty r' cs shut, wait_on_event-run r' cs (begin_shutdown-IsValid r v) shut)
