-- ===== src/Mockup.antt =====
-- artifacts/mockup-sandbox/mockupPreviewPlugin.ts: the generated module and the refreshes of the plugin. The glob, `path`
-- and JSON.stringify are the record Platform. A call of `refresh` runs until it awaits the glob; the
-- glob's answer is an event.
pub mod Scans
mod Tests
use pumpy_v.Common.{
  ℕ, String, Bool, true, false, Option, none, some, List, [], ◌∷◌, ◌++◌, map, if◌then◌else◌, not,
  ◌||◌, ◌&&◌, codes, every, ◌==◌,
}
use pumpy_v.Text.{Text, same, starts_with, ends_with, split, drop}

pub record Platform : Type 0 where
  -- `JSON.stringify` of a text
  pub stringify : Text → Text
  -- `path.posix.relative("src/.generated", f)`
  pub import_path : Text → Text
  -- `path.relative(getMockupsAbsDir(), p)` and `path.isAbsolute`
  pub relative : Text → Text
  pub is_absolute : Text → Bool
  -- `path.sep`
  pub sep : ℕ

pub record DiscoveredComponent : Type 0 where
  pub glob_key : Text
  pub import_path : Text

abbrev pub includes : Text → Text → Bool
includes [] part = starts_with [] part
includes (c ∷ s) part = starts_with (c ∷ s) part || includes s part

-- `xs.join(sep)`
abbrev pub join : Text → List Text → Text
join sep [] = []
join sep (t ∷ []) = t
join sep (t ∷ u ∷ us) = t ++ sep ++ join sep (u ∷ us)

abbrev newline : Text
newline = 10 ∷ []

unfoldable pub should_auto_rescan : Text → Bool
should_auto_rescan pathname =
    includes pathname (codes "/components/mockups/")
    || includes pathname (codes "/.generated/mockup-components")

module _ (p : Platform) where
  unfoldable pub is_mockup_file : Text → Bool
  is_mockup_file path =
      not (starts_with (p.relative path) (codes ".."))
      && not (p.is_absolute (p.relative path))
      && ends_with (p.relative path) (codes ".tsx")

  unfoldable pub is_preview_target : Text → Bool
  is_preview_target relative =
      every (λ segment. not (starts_with segment (codes "_"))) (split p.sep relative)

  -- From the files that the glob found: `f.slice("src/".length)` drops four units.
  unfoldable pub discovered : List Text → List DiscoveredComponent
  discovered files =
      map (λ f. record { glob_key = codes "./" ++ drop 4 f; import_path = p.import_path f }) files

  abbrev entry : DiscoveredComponent → Text
  entry c =
      codes "  "
      ++ p.stringify c.glob_key
      ++ codes ": () => import("
      ++ p.stringify c.import_path
      ++ codes ")"

  unfoldable pub generate_source : List DiscoveredComponent → Text
  generate_source components = join newline (
      codes "// This file is auto-generated by mockupPreviewPlugin.ts."
      ∷ codes "type ModuleMap = Record<string, () => Promise<Record<string, unknown>>>;"
      ∷ codes "export const modules: ModuleMap = {"
      ∷ join (codes "," ++ newline) (map entry components)
      ∷ codes "};"
      ∷ []
      ∷ [])

-- The plugin's variables, and the text of the generated file on disk.
pub record Plugin : Type 0 where
  pub refresh_in_flight : Bool
  pub refresh_queued : Bool
  pub current_source : Text
  pub file : Text

-- A file that differs from every source, as before the first refresh, is the empty text.
abbrev pub initial : Plugin
initial = record {
  refresh_in_flight = false;
  refresh_queued = false;
  current_source = [];
  file = [];
}

-- `refresh` up to its `await`.
unfoldable pub refresh : Plugin → Plugin
refresh s =
    if s.refresh_in_flight
    then record s { refresh_queued = true }
    else record s { refresh_in_flight = true }

-- After the `finally`: the queued refresh runs.
unfoldable pub follow_up : Plugin → Plugin
unfolding refresh
follow_up s =
    if s.refresh_queued
    then refresh (record s { refresh_in_flight = false; refresh_queued = false })
    else record s { refresh_in_flight = false }

-- The `try` once the glob has answered: the file is written only if the source changed.
unfoldable pub store : Text → Plugin → Plugin
store source s =
    if same source s.current_source then s else record s { current_source = source; file = source }

-- A write that throws: the variable is set already, and what follows the `finally` does not run.
unfoldable pub store_failed : Text → Plugin → Plugin
unfolding follow_up
store_failed source s =
    if same source s.current_source
    then follow_up s
    else record s { current_source = source; refresh_in_flight = false }

-- The handlers of the watcher and of a response, as whether they call `refresh`.
module _ (p : Platform) where
  unfoldable pub on_add : Text → Bool
  unfolding is_mockup_file is_preview_target
  on_add file = is_mockup_file p file && is_preview_target p (p.relative file)

  unfoldable pub on_unlink : Text → Bool
  unfolding is_mockup_file
  on_unlink file = is_mockup_file p file

unfoldable pub on_end : ℕ → Text → Bool
unfolding should_auto_rescan
on_end status pathname = status == 404 && should_auto_rescan pathname

pub data Event : Type 0 where
  -- a file is added or removed, a page is not found, or the server starts
  request : Event
  -- the glob gives the files, and the write succeeds or throws
  scanned : List Text → Event
  write_throws : List Text → Event
  -- the glob throws
  scan_throws : Event

unfoldable pub step : Platform → Event → Plugin → Plugin
unfolding refresh follow_up store store_failed
step p request s = refresh s
step p (scanned files) s =
    if s.refresh_in_flight then follow_up (store (generate_source p (discovered p files)) s) else s
step p (write_throws files) s =
    if s.refresh_in_flight then store_failed (generate_source p (discovered p files)) s else s
step p scan_throws s = if s.refresh_in_flight then record s { refresh_in_flight = false } else s
