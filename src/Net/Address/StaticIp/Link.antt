-- ===== src/Net/Address/StaticIp/Link.antt =====
-- networking/ETHERNET/_03_static_ip: the address of the interface against the link.
use zephyr_samples.Base.{
  ℕ, ◌≡◌, refl, Bool, true, false, ◌&&◌, not, List, [], ◌∷◌, Log, Env, if◌then◌else◌, ◌==◌, is_zero,
  arith, ℤ, Bool-cases, inl, inr,
}
use zephyr_samples.Net.Address.{
  IfaceCall, net_if_get_default, net_if_ipv4_addr_add, net_if_ipv4_addr_rm,
}
use zephyr_samples.Net.Address.StaticIp.{
  static_addr, assign_static_ip, remove_static_ip, phy_link_state_changed, show_link_addr,
  watch_phy, start_iface, main, link_changes, program,
}

-- Whether a log leaves an address with the interface.
unfoldable pub assigned : ℕ → Log IfaceCall → Bool
assigned a [] = false
assigned a ((net_if_ipv4_addr_add b prefix, r) ∷ log) =
    if b == a && not (is_zero r) then true else assigned a log
assigned a ((net_if_ipv4_addr_rm b, r) ∷ log) = if b == a then false else assigned a log
assigned a ((c, r) ∷ log) = assigned a log

-- The table of addresses of the interface has room.
unfoldable pub Room : Env IfaceCall → Type 0
Room env =
    (log : Log IfaceCall) (a prefix : ℕ)
    → is_zero (env.result log (net_if_ipv4_addr_add a prefix)) ≡ false

-- The link after its changes.
unfoldable pub link : Bool → List Bool → Bool
link up [] = up
link up (c ∷ cs) = link c cs

module _ (env : Env IfaceCall) (a : ℕ) where
  watch_phy-assigned :
      (s : Unit {0}) (log : Log IfaceCall) → assigned a (watch_phy env s log).2 ≡ assigned a log
  unfolding watch_phy assigned
  watch_phy-assigned s log = ground arith

  start_iface-assigned :
      (s : Unit {0}) (log : Log IfaceCall) → assigned a (start_iface env s log).2 ≡ assigned a log
  unfolding start_iface show_link_addr watch_phy assigned
  start_iface-assigned s log = ground arith

  main-assigned :
      (s : Unit {0}) (log : Log IfaceCall) → assigned a (main env s log).2 ≡ assigned a log
  unfolding main assigned
  main-assigned s log =
      let r : ℤ = env.result log net_if_get_default in
      ground (arith, start_iface-assigned s ((net_if_get_default, r) ∷ log))

module _ (env : Env IfaceCall) (room : Room env) where
  phy_link_state_changed-assigned :
      (is_up : Bool) (s : Unit {0}) (log : Log IfaceCall)
      → assigned static_addr (phy_link_state_changed is_up env s log).2 ≡ is_up
  unfolding phy_link_state_changed assign_static_ip remove_static_ip assigned Room
  phy_link_state_changed-assigned true s log = rw (room log static_addr 24) refl
  phy_link_state_changed-assigned false s log = refl

  link_changes-assigned :
      (changes : List Bool) (up : Bool) (s : Unit {0}) (log : Log IfaceCall)
      → assigned static_addr log ≡ up
      → assigned static_addr (link_changes changes env s log).2 ≡ link up changes
  unfolding link_changes link
  link_changes-assigned [] up s log h = h
  link_changes-assigned (c ∷ cs) up s log h =
      link_changes-assigned cs c (phy_link_state_changed c env s log).1
        (phy_link_state_changed c env s log).2 (phy_link_state_changed-assigned c s log)

  -- Where the table of addresses has room: after all changes of the link, the interface has the
  -- static address if the last change was to up and `main` has reached its loop, and has it not
  -- otherwise, also where it was never set or set more than once.
  pub program-assigned :
      (changes : List Bool) (s : Unit {0})
      → assigned static_addr (program changes env s []).2
        ≡ ((program changes env s []).0 && link false changes)
  unfolding program assigned
  program-assigned changes s =
      let before : assigned static_addr (main env s []).2 ≡ false =
        main-assigned env static_addr s [] in
      let after = link_changes-assigned changes false (main env s []).1 (main env s []).2 before in
      elim (Bool-cases (main env s []).0) [
        | inl e ↦ rw (e, after) refl
        | inr e ↦ rw (e, before) refl
      ]
