-- ===== src/Light/Prompt/Laws.antt =====
-- What a connection request can open.
use readyfleet_lightagent.Base.{
  suc, ◌≤◌, ◌≡◌, ◌⊎◌, refl, ap, String, Bool, true, false, none, some, ◌∷◌, inl, inr, ok,
  Bool-cases, arith, ◌==◌,
}
use readyfleet_lightagent.Base.Int.{pos}
use readyfleet_lightagent.Base.Lists.{count}
use readyfleet_lightagent.Base.Text.{Bytes}
use readyfleet_lightagent.Installerui.Dialog.{Callbacks}
use readyfleet_lightagent.Installerui.Dialog.Laws.{tells_created}
use readyfleet_lightagent.Installerui.Screens.{Windows, id_continue, welcome, welcome_buttons}
use readyfleet_lightagent.Installerui.Screens.Laws.Answers.{asked, show_welcome_iff}
use readyfleet_lightagent.Trayicon.Opening.{Opened}
use readyfleet_lightagent.Trayicon.Opening.Laws.{open_url_opened}
use readyfleet_lightagent.Light.Prompt.{
  bullets, contact, prompt, Shell, answer, answering, show_connection_request,
}

answer-cases :
    (s : Shell) (url : String) (x : Bool) (o : Opened)
    → (answer s url x o ≡ o)
      ⊎ ((answer s url x o ≡ (url ∷ o)) × (x ≡ true) × (s.parse url ≡ ok "https"))
answer-cases s url false o = inl refl
answer-cases s url true o = elim (Bool-cases (url == "")) [
  | inl e ↦ inl (ground arith)
  | inr e ↦ elim (open_url_opened s.parse s.utf16_from_string s.returns url o) [
    | inl (f, g) ↦ inl (ground arith)
    | inr (f, g, h) ↦ inr (ground arith, refl, g)
  ]
]

-- A connection request opens nothing, or its own address alone, and this only when Windows reported the
-- button Continue and the address has the scheme https: where Windows tells at most once that a dialog is
-- created and the next token is free.
pub request_opens :
    (w : Windows) (s : Shell) (title body url : String) (o : Opened) (c : Callbacks)
    → ((b : Bytes) → count tells_created (w.indirect b).0 ≤ 1)
    → c.handles (suc c.next) ≡ none
    → (b : Bytes) × (asked w
          (welcome w "ReadyFleet" title body bullets contact)
          (welcome_buttons w)
          c
        ≡ some b)
      × (o' : Opened) × (c' : Callbacks) × (show_connection_request w s title body url o c
          ≡ some (o', c'))
      × ((o' ≡ o)
          ⊎ ((o' ≡ (url ∷ o))
              × ((w.indirect b).1 ≡ ok (pos id_continue))
              × (s.parse url ≡ ok "https")))
unfolding show_connection_request prompt
request_opens w s title body url o c once free =
    let (b, e, x, c', f, (agreed, back), h) =
      show_welcome_iff w "ReadyFleet" title body bullets contact c once free in
    (
      b,
      e,
      answer s url x o,
      c',
      ap (λ r. answering s url o r) f,
      elim (answer-cases s url x o) [ inl g ↦ inl g | inr (g, t, p) ↦ inr (g, agreed t, p) ],
    )
