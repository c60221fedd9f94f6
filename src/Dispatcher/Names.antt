-- ===== src/Dispatcher/Names.antt =====
-- Who holds a name (src/disp.cc, `handle_auth_req` and `add_adapter`).
use flora.Base.{
  ℕ, ◌≡◌, ◌↔◌, ap, ◌∙◌, Bool, true, not, ◌&&◌, none, some, String, if◌then◌else◌, ◌==◌, string_key,
  nat_key, lookup, insert, erase, or_else, lookup-insert, lookup-erase, leb, arith, Bool-cases,
  Option-cases, inl, inr, int_key, ℤ,
}
use flora.Caps.{CapsApi}
use flora.Protocol.{has_monitor_flag, cli_edupid}
use flora.Message.Data.{AuthReq}
use flora.Dispatcher.State.{State, Written, AdapterInfo, found, info_of}
use flora.Dispatcher.Subscription.{check_subscriptions}
use flora.Dispatcher.Client.{
  insert_info, add_adapter, add_monitor, register, erase_info, do_erase_adapter,
  write_monitor_list_remove,
}

-- The request registers a name: its version is supported, it is no monitor's, and the name is not
-- empty.
abbrev pub names_client : AuthReq → Bool
names_client r = leb 3 r.version && (not (has_monitor_flag r.flags) && not (r.extra == ""))

module _ (api : CapsApi) (os : ℕ → Written) where
  insert_info-names :
      (st : State api.Caps) (name : String) (flags : ℕ) (pid : ℤ) (a : ℕ)
      → (insert_info st name flags pid a).named_adapters ≡ st.named_adapters
  unfolding insert_info
  insert_info-names st name flags pid a = ground arith

  register-names :
      (st : State api.Caps) (r : AuthReq) (sender : ℕ)
      → (register api os st r sender).0.named_adapters ≡ (
          if names_client r
          then elim (lookup r.extra st.named_adapters) [
            | none ↦ insert r.extra sender st.named_adapters
            | some other ↦ st.named_adapters
          ]
          else st.named_adapters)
  unfolding register add_adapter add_monitor insert_info
  register-names st r sender = ground arith

  -- A name that is held stays with its holder when a request is registered; a free name goes to the
  -- client that asks for it, if the request registers one; every other name is as it was.
  pub register-lookup :
      (st : State api.Caps) (r : AuthReq) (sender : ℕ) (other : String)
      → lookup other (register api os st r sender).0.named_adapters ≡ (
          if names_client r && r.extra == other
          then some (or_else (lookup other st.named_adapters) sender)
          else lookup other st.named_adapters)
  register-lookup st r sender other =
      ap (lookup other) (register-names st r sender) ∙ elim (Bool-cases (names_client r)) [
        | inr no_name ↦ rw no_name
        | inl named ↦ elim (Option-cases (lookup r.extra st.named_adapters)) [
          | inl free ↦
              rw (named, free, lookup-insert r.extra other sender st.named_adapters)
                (ground (arith, string_key.equal_iff r.extra other))
          | inr (holder, held) ↦
              rw (named, held)
                (elim (Bool-cases (r.extra == other)) [
                  | inr differ ↦ rw differ
                  | inl same ↦
                      let path : r.extra ≡ other = (string_key.equal_iff r.extra other).0 same in
                      rw same (rw (← path, held))
                ])
        ]
      ]

  -- A request is refused for its name exactly if it registers one and somebody holds it.
  pub register-edupid :
      (st : State api.Caps) (r : AuthReq) (sender : ℕ)
      → ((register api os st r sender).1 ≡ cli_edupid)
        ↔ ((names_client r ≡ true) × ¬ (lookup r.extra st.named_adapters ≡ none))
  unfolding register add_adapter add_monitor insert_info
  register-edupid st r sender = ground arith

  erase_info-names :
      (now sender : ℕ) (info : AdapterInfo) (st st' : State api.Caps)
      → erase_info api os now sender info st ≡ some st'
      → st'.named_adapters
        ≡ (if info.name == "" then st.named_adapters else erase info.name st.named_adapters)
  unfolding erase_info check_subscriptions write_monitor_list_remove
  erase_info-names now sender info st st' e = ground arith

  -- When an adapter with an entry is erased, nobody holds the name of its entry any more, whether it
  -- is a client's or a monitor's, and whoever held it; every other name is as it was.
  pub do_erase_adapter-lookup :
      (now sender : ℕ) (info : AdapterInfo) (st st' : State api.Caps) (other : String)
      → info_of st sender ≡ found info
      → do_erase_adapter api os now st sender ≡ some st'
      → lookup other st'.named_adapters ≡ (
          if not (info.name == "") && info.name == other
          then none
          else lookup other st.named_adapters)
  unfolding do_erase_adapter
  do_erase_adapter-lookup now sender info st st' other i e =
      ap (lookup other) (erase_info-names now sender info st st' (rw (i, do_erase_adapter) at e))
      ∙ elim (Bool-cases (info.name == "")) [
        | inl empty ↦ rw empty
        | inr named ↦ rw (named, lookup-erase info.name other st.named_adapters)
      ]
