-- ===== src/CourseEditor/Saves.antt =====
-- When the save state of the editor can be trusted.
use mirai_app.Prelude.{◌≡◌, ◌⊎◌, ℕ, String, true, false, none, List, [], ◌∷◌}
use mirai_app.Content.Types.{CourseBlock}
use mirai_app.CourseEditor.{
  Editor, EditorEvent, loaded, alignment_click, save_settled, regenerate, regenerate_settled,
  job_seen, step, sent_blocks,
}

-- An event that comes at a calm time: no save is under way when the blocks are changed, loaded or
-- saved, and what is loaded is what the service holds.
abbrev pub CalmAt : Editor → EditorEvent → Type 0
CalmAt s (loaded blocks) = (blocks ≡ s.stored) × (s.saves ≡ [])
CalmAt s (save_settled o) = Unit
CalmAt s (alignment_click id) = Unit
CalmAt s regenerate = Unit
CalmAt s (regenerate_settled o) = Unit
CalmAt s (job_seen status lesson) = Unit
CalmAt s e = s.saves ≡ []

module _ (fresh : ℕ → String) where
  unfoldable pub after : Editor → List (ℕ × EditorEvent) → Editor
  after s [] = s
  after s (e ∷ es) = after (step fresh s e) es

  abbrev pub IsCalm : Editor → List (ℕ × EditorEvent) → Type 0
  IsCalm s [] = Unit
  IsCalm s (e ∷ es) = CalmAt s e.1 × IsCalm (step fresh s e) es

-- At most one save is under way, of the copy as it is; and a clean copy and what the service holds
-- agree in what a save sends.
pub record IsKept (s : Editor) : Type 0 where
  pub under_way : s.saves ≡ [] ⊎ s.saves ≡ sent_blocks s.local_blocks ∷ []
  pub clean : s.is_dirty ≡ false → sent_blocks s.local_blocks ≡ sent_blocks s.stored

-- A step that leaves the saves, what is stored, and the blocks unless it marks them dirty.
record Touches (s t : Editor) : Type 0 where
  same_saves : t.saves ≡ s.saves
  same_stored : t.stored ≡ s.stored
  marked : t.is_dirty ≡ true ⊎ ((t.is_dirty ≡ s.is_dirty) × (t.local_blocks ≡ s.local_blocks))

abbrev pub Unaligned : CourseBlock → Type 0
Unaligned b = b.alignment ≡ none
