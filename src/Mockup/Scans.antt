-- ===== src/Mockup/Scans.antt =====
-- mockupPreviewPlugin.ts: no request for a refresh is lost while nothing throws.
use pumpy_v.Common.{
  ℕ, suc, ◌+◌, ◌≤◌, ◌≡◌, refl, sym, ◌∙◌, inl, inr, Bool, true, false, Option, none, some, List, [],
  ◌∷◌, if◌then◌else◌, Bool-cases, arith,
}
use pumpy_v.Text.{Text, same}
use pumpy_v.Mockup.{
  Platform, Plugin, Event, request, scanned, write_throws, scan_throws, initial, follow_up, store,
  step, discovered, generate_source,
}

-- A plugin under observation: the calls of `refresh` and the scans so far, the calls that came before
-- the present scan began (`covered`) or before the last finished one did (`done`), and the files
-- that the last finished scan found.
pub record Watch : Type 0 where
  pub plugin : Plugin
  pub requests : ℕ
  pub scans : ℕ
  pub covered : ℕ
  pub done : ℕ
  pub found : Option (List Text)

abbrev pub watched : Watch
watched = record { plugin = initial; requests = 0; scans = 0; covered = 0; done = 0; found = none }

-- A scan begins.
abbrev began : Watch → Watch
began w = record w { scans = suc w.scans; covered = w.requests }

abbrev requested : Watch → Watch
requested w = record w { requests = suc w.requests }

abbrev finished : List Text → Watch → Watch
finished files w = record w { done = w.covered; found = some files }

abbrev pub observe : Event → Plugin → Watch → Watch
observe request s w = if s.refresh_in_flight then requested w else began (requested w)
observe (scanned files) s w =
    if s.refresh_in_flight
    then (if s.refresh_queued then began (finished files w) else finished files w)
    else w
observe (write_throws files) s w = w
observe scan_throws s w = w

unfoldable pub watch : Platform → List Event → Watch → Watch
unfolding step
watch p [] w = w
watch p (e ∷ es) w = watch p es (record (observe e w.plugin w) { plugin = step p e w.plugin })

abbrev pub IsQuiet : List Event → Type 0
IsQuiet [] = Unit {0}
IsQuiet (request ∷ es) = IsQuiet es
IsQuiet (scanned files ∷ es) = IsQuiet es
IsQuiet (write_throws files ∷ es) = ⊥
IsQuiet (scan_throws ∷ es) = ⊥

abbrev waiting : Bool → ℕ
waiting true = 1
waiting false = 0

-- The file shows the files that a scan found.
abbrev pub Shows : Platform → Text → Option (List Text) → Type 0
Shows p file none = file ≡ []
Shows p file (some files) = file ≡ generate_source p (discovered p files)

record IsSound (p : Platform) (w : Watch) : Type 0 where
  idle :
      w.plugin.refresh_in_flight ≡ false → (w.done ≡ w.requests) × (w.plugin.refresh_queued ≡ false)
  current :
      w.plugin.refresh_in_flight ≡ true → w.plugin.refresh_queued ≡ false → w.covered ≡ w.requests
  few : w.scans + waiting w.plugin.refresh_queued ≤ w.requests
  saved : w.plugin.file ≡ w.plugin.current_source
  shows : Shows p w.plugin.file w.found

same_sound : (s t : Text) → same s t ≡ true → s ≡ t
same_sound [] [] h = refl
same_sound [] (b ∷ t) h = ground arith
same_sound (a ∷ s) [] h = ground arith
same_sound (a ∷ s) (b ∷ t) h = ground (arith, same_sound s t)

module _ (p : Platform) where
  at : Bool → Bool → Text → Text → ℕ → ℕ → ℕ → ℕ → Option (List Text) → Watch
  at in_flight queued source file requests scans covered done found = record {
    plugin = record {
      refresh_in_flight = in_flight;
      refresh_queued = queued;
      current_source = source;
      file = file;
    };
    requests = requests;
    scans = scans;
    covered = covered;
    done = done;
    found = found;
  }

  after : Event → Watch → Watch
  after e w = record (observe e w.plugin w) { plugin = step p e w.plugin }

  request-IsSound :
      (i q : Bool) (source file : Text) (r s c d : ℕ) (found : Option (List Text))
      → IsSound p (at i q source file r s c d found)
      → IsSound p (after request (at i q source file r s c d found))
  unfolding at after step
  request-IsSound true q source file r s c d found h = record {
    idle = λ x. cc;
    current = λ x y. cc;
    few = omega (arith, h.few);
    saved = h.saved;
    shows = h.shows;
  }
  request-IsSound false q source file r s c d found h = record {
    idle = λ x. cc;
    current = λ x y. refl;
    few = omega (arith, h.few);
    saved = h.saved;
    shows = h.shows;
  }

  scanned-IsSound :
      (files : List Text) (i q : Bool) (source file : Text) (r s c d : ℕ)
      (found : Option (List Text))
      → IsSound p (at i q source file r s c d found)
      → IsSound p (after (scanned files) (at i q source file r s c d found))
  unfolding at after step
  scanned-IsSound files false q source file r s c d found h = h
  scanned-IsSound files true false source file r s c d found h =
      elim (Bool-cases (same (generate_source p (discovered p files)) source)) [
        | inl e ↦
            rw (after, step, store, e)
              (record {
                idle = λ x. (h.current refl refl, refl);
                current = λ x y. cc;
                few = h.few;
                saved = h.saved;
                shows = h.saved ∙ sym (same_sound _ _ e);
              })
        | inr e ↦
            rw (after, step, store, e)
              (record {
                idle = λ x. (h.current refl refl, refl);
                current = λ x y. cc;
                few = h.few;
                saved = refl;
                shows = refl;
              })
      ]
  scanned-IsSound files true true source file r s c d found h =
      elim (Bool-cases (same (generate_source p (discovered p files)) source)) [
        | inl e ↦
            rw (after, step, store, e)
              (record {
                idle = λ x. cc;
                current = λ x y. refl;
                few = omega (arith, h.few);
                saved = h.saved;
                shows = h.saved ∙ sym (same_sound _ _ e);
              })
        | inr e ↦
            rw (after, step, store, e)
              (record {
                idle = λ x. cc;
                current = λ x y. refl;
                few = omega (arith, h.few);
                saved = refl;
                shows = refl;
              })
      ]

  watch-IsSound :
      (es : List Event) (w : Watch) → IsQuiet es → IsSound p w → IsSound p (watch p es w)
  unfolding watch at after
  watch-IsSound [] w q h = h
  watch-IsSound (request ∷ es) w q h = watch-IsSound es _ q (
      request-IsSound w.plugin.refresh_in_flight w.plugin.refresh_queued w.plugin.current_source
        w.plugin.file w.requests w.scans w.covered w.done w.found h)
  watch-IsSound (scanned files ∷ es) w q h = watch-IsSound es _ q (
      scanned-IsSound files w.plugin.refresh_in_flight w.plugin.refresh_queued
        w.plugin.current_source w.plugin.file w.requests w.scans w.covered w.done w.found h)
  watch-IsSound (write_throws files ∷ es) w q h = elim q [ ]
  watch-IsSound (scan_throws ∷ es) w q h = elim q [ ]

  -- After any history in which neither the glob nor a write throws, once no refresh is in flight: each call of
  -- `refresh` was followed by a scan that began after it and has finished, there were no more scans than
  -- calls, and the generated file shows what the last scan found.
  pub watch_settled :
      (es : List Event)
      → IsQuiet es
      → (watch p es watched).plugin.refresh_in_flight ≡ false
      → ((watch p es watched).done ≡ (watch p es watched).requests)
        × ((watch p es watched).scans ≤ (watch p es watched).requests)
        × Shows p (watch p es watched).plugin.file (watch p es watched).found
  watch_settled es q idle =
      let h = watch-IsSound es watched q (record {
        idle = λ x. (refl, refl);
        current = λ x y. refl;
        few = omega arith;
        saved = refl;
        shows = refl;
      }) in
      ((h.idle idle).0, omega (arith, h.few), h.shows)

  plugin_at : Bool → Bool → Text → Text → Plugin
  plugin_at i q source file = record {
    refresh_in_flight = i;
    refresh_queued = q;
    current_source = source;
    file = file;
  }

  one_settles :
      (files : List Text) (i : Bool) (source file : Text)
      → (step p (scanned files) (plugin_at i false source file)).refresh_in_flight ≡ false
  unfolding plugin_at step follow_up
  one_settles files false source file = refl
  one_settles files true source file =
      elim (Bool-cases (same (generate_source p (discovered p files)) source)) [
        | inl e ↦ rw (step, store, e) refl
        | inr e ↦ rw (step, store, e) refl
      ]

  two_settle :
      (files files' : List Text) (i q : Bool) (source file : Text)
      → (step p
          (scanned files')
          (step p (scanned files) (plugin_at i q source file))).refresh_in_flight
        ≡ false
  unfolding plugin_at step follow_up
  two_settle files files' false q source file = refl
  two_settle files files' true q source file =
      elim (Bool-cases (same (generate_source p (discovered p files)) source)) [
        | inl e ↦ rw (step, store, e) (by_queue q source file)
        | inr e ↦ rw (step, store, e) (by_queue q _ _)
      ]
    where
      by_queue :
          (queued : Bool) (source' file' : Text)
          → (step p
              (scanned files')
              (follow_up (plugin_at true queued source' file'))).refresh_in_flight
            ≡ false
      by_queue true source' file' = one_settles files' true source' file'
      by_queue false source' file' = refl

  -- The recursion of `refresh` ends: without another call, after two answers of the glob no refresh is in flight,
  -- whatever state the plugin was in.
  pub two_scans_settle :
      (files files' : List Text) (s : Plugin)
      → (step p (scanned files') (step p (scanned files) s)).refresh_in_flight ≡ false
  unfolding plugin_at
  two_scans_settle files files' s =
      two_settle files files' s.refresh_in_flight s.refresh_queued s.current_source s.file
