-- ===== src/Mockup/Tests.antt =====
-- mockupPreviewPlugin.ts: a generated module, the handlers, and refreshes that overlap.
use pumpy_v.Common.{◌≤◌, ◌≡◌, refl, true, false, List, [], ◌∷◌, ◌++◌, codes}
use pumpy_v.Text.{Text, starts_with}
use pumpy_v.Mockup.{
  Platform, request, scanned, scan_throws, initial, step, on_add, on_unlink, on_end,
  generate_source, discovered,
}
use pumpy_v.Mockup.Scans.{watch, watched, Shows, watch_settled, two_scans_settle}

abbrev platform : Platform
platform = record {
  stringify = λ s. codes "\"" ++ s ++ codes "\"";
  import_path = λ s. codes "../" ++ s;
  relative = λ s. s;
  is_absolute = λ s. starts_with s (codes "/");
  sep = b'/';
}

hidden :
    (on_add platform (codes "a/_b.tsx") ≡ false) × (on_unlink platform (codes "a/_b.tsx") ≡ true)
unfolding on_add on_unlink
hidden = (refl, refl)

rescans :
    (on_end 404 (codes "/src/components/mockups/x") ≡ true)
    × (on_end 200 (codes "/src/components/mockups/x") ≡ false)
unfolding on_end
rescans = (refl, refl)

-- A scan that throws leaves the call that waited queued, and no scan runs for it.
dropped :
    (step platform scan_throws (step platform request (step platform request initial)))
    ≡ record { refresh_in_flight = false; refresh_queued = true; current_source = []; file = [] }
unfolding step
dropped = refl

abbrev files : List Text
files = codes "src/a.tsx" ∷ []

watch_settled_example :
    ((watch platform (request ∷ request ∷ scanned [] ∷ scanned files ∷ []) watched).done
      ≡ (watch platform (request ∷ request ∷ scanned [] ∷ scanned files ∷ []) watched).requests)
    × ((watch platform (request ∷ request ∷ scanned [] ∷ scanned files ∷ []) watched).scans
        ≤ (watch platform (request ∷ request ∷ scanned [] ∷ scanned files ∷ []) watched).requests)
    × Shows platform
        (watch platform (request ∷ request ∷ scanned [] ∷ scanned files ∷ []) watched).plugin.file
        (watch platform (request ∷ request ∷ scanned [] ∷ scanned files ∷ []) watched).found
unfolding watch step generate_source discovered
watch_settled_example =
    watch_settled platform (request ∷ request ∷ scanned [] ∷ scanned files ∷ []) tt refl

two_scans_settle_example :
    (step platform (scanned files) (
      step platform (scanned []) (record {
        refresh_in_flight = true;
        refresh_queued = true;
        current_source = [];
        file = [];
      }))).refresh_in_flight
    ≡ false
two_scans_settle_example =
    two_scans_settle platform [] files
      (record { refresh_in_flight = true; refresh_queued = true; current_source = []; file = [] })
