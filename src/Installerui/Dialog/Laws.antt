-- ===== src/Installerui/Dialog/Laws.antt =====
-- What a dialog tells its caller, and what it leaves of the others.
use readyfleet_lightagent.Base.{
  ℕ, suc, ◌≤◌, ◌≡◌, ◌≢◌, ◌∙◌, sym, refl, ap, Bool, true, false, Option, none, some, List, [], ◌∷◌,
  inl, inr, eqb, eqb_iff, if◌then◌else◌, Bool-cases, Option-cases, arith,
}
use readyfleet_lightagent.Base.Lists.{count}
use readyfleet_lightagent.Base.Text.{Bytes}
use readyfleet_lightagent.Installerui.Packing.{TaskDialogConfig, marshal}
use readyfleet_lightagent.Installerui.Dialog.{
  DialogHandle, new_dialog_handle, set, get, Callbacks, stored, register_callback,
  unregister_callback, tdn_created, task_dialog_callback, Notification, notified,
  TaskDialogIndirect, with_callback, clicked, handle_of, Ended, run_task_dialog,
}

abbrev pub tells_created : Notification → Bool
tells_created n = eqb n.msg tdn_created

-- The window of the first notification that the dialog is created.
abbrev pub first_created : List Notification → Option ℕ
first_created [] = none
first_created (n ∷ ns) =
    let earlier = first_created ns in
    elim earlier [ some h ↦ some h | none ↦ if tells_created n then some n.hwnd else none ]

-- The handle of a dialog whose notifications these are.
abbrev told : Option ℕ → DialogHandle
told none = new_dialog_handle
told (some h) = record { hwnd = h; is_ready = true }

-- The callbacks with a dialog's handle as its notifications leave it.
abbrev Told : ℕ → Callbacks → List Notification → Callbacks → Type 0
Told token c ns d =
    (d.handles token ≡ some (told (first_created ns)))
    × ((u : ℕ) → u ≢ token → d.handles u ≡ c.handles u)
    × (d.next ≡ c.next)

first_created-none : (ns : List Notification) → count tells_created ns ≡ 0 → first_created ns ≡ none
first_created-none [] h = refl
first_created-none (n ∷ ns) h = let rest = first_created-none ns in ground arith

first_created-skip :
    (n : Notification) (ns : List Notification)
    → tells_created n ≡ false
    → first_created (n ∷ ns) ≡ first_created ns
first_created-skip n ns h = elim (Option-cases (first_created ns)) [
  | inl e ↦ ground arith
  | inr (x, e) ↦ ground arith
]

first_created-here :
    (n : Notification) (ns : List Notification)
    → tells_created n ≡ true
    → first_created ns ≡ none
    → first_created (n ∷ ns) ≡ some n.hwnd
first_created-here n ns h e = ground arith

callback_other :
    (n : Notification) (token : ℕ) (d : Callbacks)
    → tells_created n ≡ false
    → task_dialog_callback n.hwnd n.msg token d ≡ some d
unfolding task_dialog_callback
callback_other n token d h = rw h refl

callback_created :
    (n : Notification) (token : ℕ) (d : Callbacks)
    → tells_created n ≡ true
    → d.handles token ≡ some new_dialog_handle
    → task_dialog_callback n.hwnd n.msg token d
      ≡ some (record d { handles = stored d.handles token (some (told (some n.hwnd))) })
unfolding task_dialog_callback set
callback_created n token d h e = rw (h, e) refl

stored-here : (f : ℕ → Option DialogHandle) (t : ℕ) (v : Option DialogHandle) → stored f t v t ≡ v
stored-here f t v = ground (arith, eqb_iff t t)

stored-other :
    (f : ℕ → Option DialogHandle) (t u : ℕ) (v : Option DialogHandle) → u ≢ t → stored f t v u ≡ f u
stored-other f t u v ne = ground (arith, eqb_iff t u)

notified-Told :
    (token : ℕ) (c : Callbacks) (ns : List Notification)
    → c.handles token ≡ some new_dialog_handle
    → count tells_created ns ≤ 1
    → (d : Callbacks) × (notified ns token c ≡ some d) × Told token c ns d
unfolding notified
notified-Told token c [] h k = (c, refl, (h, (λ u ne. refl), refl))
notified-Told token c (n ∷ ns) h k =
    let (d, e, (at, others, next)) = notified-Told token c ns h (ground arith) in
    elim (Bool-cases (tells_created n)) [
      | inr f ↦ (
        d,
        rw e (callback_other n token d f),
        (at ∙ ap (λ o. some (told o)) (sym (first_created-skip n ns f)), others, next),
      )
      | inl f ↦
          let none_yet = first_created-none ns (ground arith) in
          let fresh : d.handles token ≡ some new_dialog_handle =
            at ∙ ap (λ o. some (told o)) none_yet in
          let h' = some (told (some n.hwnd)) in
          (
            record d { handles = stored d.handles token h' },
            rw e (callback_created n token d f fresh),
            (
              stored-here d.handles token h'
                  ∙ ap (λ o. some (told o)) (sym (first_created-here n ns f none_yet)),
              (λ u ne. stored-other d.handles token u h' ne ∙ others u ne),
              next,
            ),
          )
    ]

handle-told : (o : Option ℕ) → handle_of (some (told o)) ≡ o
unfolding get
handle-told none = refl
handle-told (some h) = refl

restored :
    (c d : Callbacks) (ns : List Notification) (token u : ℕ)
    → c.handles token ≡ none
    → Told token (register_callback new_dialog_handle c).1 ns d
    → token ≡ suc c.next
    → (unregister_callback token d).handles u ≡ c.handles u
unfolding register_callback unregister_callback
restored c d ns token u free (at, others, next) e = elim (Bool-cases (eqb u token)) [
  | inl f ↦
      let same : u ≡ token = (eqb_iff u token).0 f in
      rw same (stored-here d.handles token none ∙ sym free)
  | inr f ↦
      let ne : u ≢ token = λ k. ground (arith, eqb_iff u token) in
      stored-other d.handles token u none ne
      ∙ others u ne
      ∙ stored-other c.handles (suc c.next) u (some new_dialog_handle) (λ k. ne (k ∙ sym e))
]

-- A dialog whose configuration is packed, whose token is free, and which Windows tells at most once that
-- it is created, returns Windows' button or error, hands its caller the window that it was told, if any,
-- and leaves the callbacks of all other dialogs and none of its own: nothing panics.
pub run_task_dialog_ends :
    (callback : ℕ) (indirect : TaskDialogIndirect) (cfg : TaskDialogConfig) (c : Callbacks)
    (b : Bytes)
    → c.handles (suc c.next) ≡ none
    → marshal (with_callback callback (suc c.next) cfg) ≡ some b
    → count tells_created (indirect b).0 ≤ 1
    → (t : Ended) × (run_task_dialog callback indirect cfg c ≡ some t)
      × (t.result ≡ clicked (indirect b).1)
      × (t.created ≡ first_created (indirect b).0)
      × ((u : ℕ) → t.callbacks.handles u ≡ c.handles u)
unfolding run_task_dialog register_callback
run_task_dialog_ends callback indirect cfg c b free e k =
    let token = suc c.next in
    let c' = (register_callback new_dialog_handle c).1 in
    let ns = (indirect b).0 in
    let (d, f, told_d) =
      notified-Told token c' ns (stored-here c.handles token (some new_dialog_handle)) k in
    (
      record {
        result = clicked (indirect b).1;
        created = first_created ns;
        callbacks = unregister_callback token d;
      },
      rw (e, f, told_d.0, handle-told (first_created ns)) refl,
      refl,
      refl,
      (λ u. restored c d ns token u free told_d refl),
    )
