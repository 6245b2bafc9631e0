-- ===== src/Jobs/Replay/Events.antt =====
-- The stored events that `applyResume` of src/jobs/manager.ts sends again.
use hugin_agent.Prelude.{
  ℕ, ◌≡◌, refl, sym, ap, ◌∙◌, String, Option, none, some, List, [], ◌∷◌, ◌++◌, map, arith,
}
use mathlib.Core.List.{reverse, reverse-cons, append_assoc}
use hugin_agent.Conn.Outbound.{Message}
use hugin_agent.Store.{Store, events_after, set_attempt_lease}
use hugin_agent.Jobs.Manager.{Manager, sends, send}
use hugin_agent.Jobs.Resume.{restamp_directive, resend, adopt_directive}

-- The sends of a resumption, newest first, before what was traced already.
pub resend-trace :
    (lease : Option String) (ps : List Message) (m : Manager)
    → (resend lease ps m).trace
      ≡ reverse (map (λ p. sends (restamp_directive lease p)) ps) ++ m.trace
unfolding resend send
resend-trace lease [] m = refl
resend-trace lease (p ∷ ps) m =
    resend-trace lease ps (send (restamp_directive lease p) m)
    ∙ (sym (
          append_assoc (reverse (map (λ q. sends (restamp_directive lease q)) ps))
            (sends (restamp_directive lease p) ∷ []) m.trace)
        ∙ ap (λ es. es ++ m.trace)
            (sym (
              reverse-cons (sends (restamp_directive lease p))
                (map (λ q. sends (restamp_directive lease q)) ps))))

pub resend-store :
    (lease : Option String) (ps : List Message) (m : Manager) → (resend lease ps m).store ≡ m.store
unfolding resend send
resend-store lease [] m = refl
resend-store lease (p ∷ ps) m = resend-store lease ps (send (restamp_directive lease p) m)

pub adopt_directive_keeps :
    (now : ℕ) (id : String) (lease : Option String) (m : Manager)
    → let m' = adopt_directive now id lease m in
      (m'.trace ≡ m.trace)
      × (m'.store.events ≡ m.store.events)
      × (m'.store.results ≡ m.store.results)
unfolding adopt_directive set_attempt_lease
adopt_directive_keeps now id none m = (refl, refl, refl)
adopt_directive_keeps now id (some lease) m = ground arith

pub events_after-events :
    (s s' : Store) (id : String) (after : ℕ)
    → s'.events ≡ s.events
    → events_after s' id after ≡ events_after s id after
unfolding events_after
events_after-events s s' id after e = rw e
