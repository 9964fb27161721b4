-- ===== src/ComponentEditing/Edits.antt =====
-- What every run of the component editing keeps, and what its undos restore.
use mirai_app.Prelude.{
  ℕ, ◌≡◌, ◌≢◌, sym, Bool, true, false, some, List, [], ◌∷◌, ◌++◌, arith, is_some,
}
use mathlib.Core.Path.{subst}
use mirai_app.Prelude.Js.{is_nonempty}
use mirai_app.Content.Types.{Text}
use mirai_app.Shared.Machine.{run, run_inv, run-append}
use mirai_app.ComponentEditing.{step}
use mirai_app.ComponentEditing.History.{
  IsFilled, pushed-IsFilled, without_last-IsFilled, last-append, without_last-append,
  is_nonempty-append,
}
use mirai_app.ComponentEditing.Data.{
  ComponentEditingState, idle, active, saving, submitting, polling, waiting, fetching_lesson,
  crashed, ComponentEditingContext, ComponentEditingEvent, update_content, undo, ComponentEditing,
  initial, has_unsaved_changes, can_undo, pushed,
}

-- The states with a component, and with a job.
abbrev is_editing : ComponentEditingState → Bool
is_editing idle = false
is_editing crashed = false
is_editing _ = true

abbrev has_job : ComponentEditingState → Bool
has_job polling = true
has_job waiting = true
has_job fetching_lesson = true
has_job _ = false

pub record IsEditing (s : ComponentEditing) : Type 0 where
  pub runs : s.state ≢ crashed
  pub course : is_editing s.state ≡ true → is_some s.context.course_id ≡ true
  pub lesson : is_editing s.state ≡ true → is_some s.context.lesson ≡ true
  pub component : is_editing s.state ≡ true → is_some s.context.active_component ≡ true
  pub original : is_editing s.state ≡ true → is_some s.context.original_content ≡ true
  pub edited : is_editing s.state ≡ true → is_some s.context.edited_content ≡ true
  pub job : has_job s.state ≡ true → is_some s.context.regeneration_job ≡ true
  pub changed : s.state ≡ saving → has_unsaved_changes s.context ≡ true
  pub history : IsFilled s.context.history

initial-IsEditing : IsEditing initial
initial-IsEditing = ground arith

keeps :
    (now : ℕ) (s : ComponentEditingState) (e : ComponentEditingEvent) (c : ComponentEditingContext)
    → IsEditing (record { state = s; context = c })
    → IsEditing (step (record { state = s; context = c }) (now, e)).0
unfolding step
keeps now idle e c h = ground arith
keeps now active e c h =
    ground (arith, pushed-IsFilled c.edited_content c.history, without_last-IsFilled c.history)
keeps now saving e c h = ground arith
keeps now submitting e c h = ground arith
keeps now polling e c h = ground arith
keeps now waiting e c h = ground arith
keeps now fetching_lesson e c h = ground arith
keeps now crashed e c h = ground arith

step-IsEditing :
    (s : ComponentEditing) (e : ℕ × ComponentEditingEvent) → IsEditing s → IsEditing (step s e).0
step-IsEditing s (now, e) h = keeps now s.state e s.context h

-- In every run the machine never crashes; while it edits there are a course, a lesson, a component
-- and both contents; while it polls there is a job; a save has changes; and the history holds no
-- empty content.
pub run-IsEditing : (es : List (ℕ × ComponentEditingEvent)) → IsEditing (run step initial es).0
run-IsEditing es = run_inv step IsEditing step-IsEditing initial es initial-IsEditing

-- Updates and undos that match like brackets.
pub data Edits : Type 0 where
  nothing : Edits
  edit : ℕ → Text → Edits → ℕ → Edits → Edits

pub events_of : Edits → List (ℕ × ComponentEditingEvent)
events_of nothing = []
events_of (edit now text inner later rest) =
    (now, update_content text) ∷ (events_of inner ++ (later, undo) ∷ events_of rest)

-- No update sets an empty content.
abbrev pub IsWritten : Edits → Type 0
IsWritten nothing = Unit
IsWritten (edit now text inner later rest) =
    (is_nonempty text ≡ true) × IsWritten inner × IsWritten rest

-- The machine edits a content with a history.
pub record Holds (text : Text) (past : List Text) (s : ComponentEditing) : Type 0 where
  pub state : s.state ≡ active
  pub content : s.context.edited_content ≡ some text
  pub history : s.context.history ≡ past

update-Holds :
    (now : ℕ) (old text : Text) (h : List Text) (s : ComponentEditing)
    → is_nonempty old ≡ true
    → Holds old h s
    → Holds text (h ++ old ∷ []) (step s (now, update_content text)).0
unfolding step pushed
update-Holds now old text h s n k = ground (arith, n, k)

undo-Holds :
    (now : ℕ) (old text : Text) (h : List Text) (s : ComponentEditing)
    → is_nonempty old ≡ true
    → Holds text (h ++ old ∷ []) s
    → Holds old h (step s (now, undo)).0
unfolding step can_undo
undo-Holds now old text h s n k =
    ground (arith, n, k, last-append h old, without_last-append h old, is_nonempty-append h old)

-- Updates and undos that match like brackets leave the content and the history as they were, if no
-- content is empty.
pub undo-updates :
    (e : Edits) (text : Text) (h : List Text) (s : ComponentEditing)
    → is_nonempty text ≡ true
    → IsWritten e
    → Holds text h s
    → Holds text h (run step s (events_of e)).0
unfolding run events_of
undo-updates nothing text h s n w k = k
undo-updates (edit now new inner later rest) text h s n (m, wi, wr) k =
    let s1 = (step s (now, update_content new)).0 in
    let s2 = (run step s1 (events_of inner)).0 in
    let s3 = (step s2 (later, undo)).0 in
    let k2 = undo-updates inner new (h ++ text ∷ []) s1 m wi (update-Holds now text new h s n k) in
    let k3 = undo-updates rest text h s3 n wr (undo-Holds later text new h s2 n k2) in
    subst (λ r. Holds text h r)
      (sym (run-append step s1 (events_of inner) ((later, undo) ∷ events_of rest))) k3
