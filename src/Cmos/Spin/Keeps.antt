-- ===== src/Cmos/Spin/Keeps.antt =====
-- What the lookups at the master keep: any property of the context that a new connection and a
-- change of the master's socket keep.
use loop_charger_inverter.Prelude.{
  ℕ, ◌+◌, ◌<◌, ◌≡◌, refl, ◌∙◌, Bool, false, not, ◌&&◌, Option, List, [], ◌∷◌, ◌++◌, length, leb,
  if◌then◌else◌, Bool-cases, Option-cases, inl, inr, gt→leb, if-both,
}
use loop_charger_inverter.Prelude.Int.{ℤ, pos, negsuc, is_neg}
use loop_charger_inverter.Cmos.Text.{codes, newline, c_string, same_text, after_prefix}
use loop_charger_inverter.Cmos.Sub.{SubSlot, cut_lines, keep_rest}
use loop_charger_inverter.Cmos.Conns.{
  find_conn, free_conn, cm_max_sub_slots, SubCtx, SubCalls, has_conn, ctx_add_pub, pub_info,
  lookup_line, lookup_lines,
}
use loop_charger_inverter.Cmos.Spin.{
  drop_master, ask_master, lookup_loop, ctx_lookup_slot, register_topics, ctx_reconnect_master,
  lookup_all, ctx_reconnect_all_pubs, lookup_missing, cmos_sub_add, filled_slot,
}

module _ {C W : Type 0} (calls : SubCalls W) (P : SubCtx C → Type 0)
    (adds : (w : W) (ctx : SubCtx C) (s : ℕ) (node ip : List ℕ) (port : ℕ)
      → P ctx
      → P (ctx_add_pub calls w ctx s node ip port).1)
    (drops : (ctx : SubCtx C) (sock : ℤ) → P ctx → P (record ctx { master_sock = sock })) where
  lookup_line-Keeps :
      (w : W) (ctx : SubCtx C) (s : ℕ) (found : Bool) (line : List ℕ)
      → P ctx
      → P (lookup_line calls w ctx s found line).1
  unfolding lookup_line
  lookup_line-Keeps w ctx s found line t =
      elim (Option-cases (after_prefix (codes "PUBINFO ") line)) [
        | inl e ↦ rw (lookup_line, e) t
        | inr (r, e) ↦ elim (Option-cases (pub_info line)) [
          | inl f ↦ rw (lookup_line, e, f) t
          | inr ((ip, port, node), f) ↦
              rw (lookup_line, e, f) (adds w ctx s node ip (calls.atoi port) t)
        ]
      ]

  lookup_lines-Keeps :
      (w : W) (ctx : SubCtx C) (s : ℕ) (found : Bool) (lines : List (List ℕ))
      → P ctx
      → P (lookup_lines calls w ctx s found lines).1
  unfolding lookup_lines
  lookup_lines-Keeps w ctx s found [] t = t
  lookup_lines-Keeps w ctx s found (line ∷ lines) t =
      elim (Bool-cases (same_text (c_string line) (codes "END" ++ (newline ∷ [])))) [
        | inl e ↦ rw (lookup_lines, e) t
        | inr e ↦
            let (w', ctx', found') = lookup_line calls w ctx s found (c_string line) in
            rw (lookup_lines, e)
              (lookup_lines-Keeps w' ctx' s found' lines
                (lookup_line-Keeps w ctx s found (c_string line) t))
      ]

  lookup_loop-Keeps :
      (w : W) (ctx : SubCtx C) (s : ℕ) (found : Bool) (rx : List ℕ) (pieces : List (List ℕ))
      → P ctx
      → P (lookup_loop calls w ctx s found rx pieces).1
  unfolding lookup_loop
  lookup_loop-Keeps w ctx s found rx [] t = drops ctx (negsuc 0) t
  lookup_loop-Keeps w ctx s found rx ([] ∷ pieces) t = drops ctx (negsuc 0) t
  lookup_loop-Keeps w ctx s found rx ((b ∷ bs) ∷ pieces) t =
      let lines = (cut_lines [] (rx ++ (b ∷ bs))).0 in
      elim (Option-cases (lookup_lines calls w ctx s found lines).3) [
        | inr (code, e) ↦ rw (lookup_loop, e) (lookup_lines-Keeps w ctx s found lines t)
        | inl e ↦
            let (w', ctx', found', _) = lookup_lines calls w ctx s found lines in
            rw (lookup_loop, e)
              (lookup_loop-Keeps w' ctx' s found' (keep_rest (cut_lines [] (rx ++ (b ∷ bs))).1)
                pieces (lookup_lines-Keeps w ctx s found lines t))
      ]

  pub ctx_lookup_slot-Keeps :
      (w : W) (ctx : SubCtx C) (s : ℕ) (topic : List ℕ)
      → P ctx
      → P (ctx_lookup_slot calls w ctx s topic).1
  unfolding ctx_lookup_slot
  ctx_lookup_slot-Keeps w ctx s topic t =
      elim (Bool-cases
        (ask_master calls w ctx (codes "LOOKUP_TOPIC " ++ (topic ++ (newline ∷ [])))).1) [
          | inl refused ↦ rw (refused) (drops ctx (negsuc 0) t)
          | inr taken ↦ rw (taken) (lookup_loop-Keeps _ ctx s false [] _ t)
        ]

  ctx_reconnect_master-Keeps :
      (w : W) (ctx : SubCtx C) → P ctx → P (ctx_reconnect_master calls w ctx).1
  unfolding ctx_reconnect_master
  ctx_reconnect_master-Keeps w ctx t =
      let closed = if is_neg ctx.master_sock then w else calls.close w ctx.master_sock in
      let Q : W × SubCtx C × ℤ → Type 0 = λ r. P r.1 in
      let (w1, master) = calls.connect_tcp closed ctx.master_ip ctx.master_port in
      let ctx1 : SubCtx C = record ctx { master_sock = master } in
      let (w2, refused) =
        ask_master calls w1 ctx1 (codes "NODE " ++ (ctx.node_name ++ (newline ∷ []))) in
      let (w3, failed) = register_topics calls w2 ctx1 ctx.sub_slots in
      if-both Q (is_neg master) {x = (w1, ctx1, negsuc 0)} (drops ctx master t) (
        if-both Q refused {x = drop_master calls w2 ctx1}
          (drops ctx1 (negsuc 0) (drops ctx master t))
          (if-both Q failed {x = drop_master calls w3 ctx1} {y = (w3, ctx1, pos 0)}
            (drops ctx1 (negsuc 0) (drops ctx master t)) (drops ctx master t)))

  lookup_all-Keeps :
      (w : W) (ctx : SubCtx C) (slots : List (SubSlot C)) (s : ℕ)
      → P ctx
      → P (lookup_all calls w ctx slots s).1
  unfolding lookup_all
  lookup_all-Keeps w ctx [] s t = t
  lookup_all-Keeps w ctx (slot ∷ slots) s t = elim (Bool-cases slot.used) [
    | inl e ↦
        let (w', ctx', _) = ctx_lookup_slot calls w ctx s slot.topic in
        rw (lookup_all, e)
          (lookup_all-Keeps w' ctx' slots (s + 1) (ctx_lookup_slot-Keeps w ctx s slot.topic t))
    | inr e ↦ rw (lookup_all, e) (lookup_all-Keeps w ctx slots (s + 1) t)
  ]

  pub ctx_reconnect_all_pubs-Keeps :
      (w : W) (ctx : SubCtx C) → P ctx → P (ctx_reconnect_all_pubs calls w ctx).1
  unfolding ctx_reconnect_all_pubs
  ctx_reconnect_all_pubs-Keeps w ctx t =
      let (w', ctx', code) = ctx_reconnect_master calls w ctx in
      let t' = ctx_reconnect_master-Keeps w ctx t in
      elim (Bool-cases (is_neg ctx.master_sock)) [
        | inr up ↦ rw up (lookup_all-Keeps w ctx ctx.sub_slots 0 t)
        | inl down ↦ elim (Bool-cases (is_neg code)) [
          | inl failed ↦ rw (down) (rw failed t')
          | inr again ↦ rw (down) (rw again (lookup_all-Keeps w' ctx' ctx'.sub_slots 0 t'))
        ]
      ]

  pub lookup_missing-Keeps :
      (w : W) (ctx : SubCtx C) (slots : List (SubSlot C)) (s : ℕ)
      → P ctx
      → P (lookup_missing calls w ctx slots s).1
  unfolding lookup_missing
  lookup_missing-Keeps w ctx [] s t = t
  lookup_missing-Keeps w ctx (slot ∷ slots) s t =
      elim (Bool-cases (slot.used && not (has_conn ctx.pub_conns s))) [
        | inl e ↦
            let (w', ctx', _) = ctx_lookup_slot calls w ctx s slot.topic in
            rw (lookup_missing, e)
              (lookup_missing-Keeps w' ctx' slots (s + 1)
                (ctx_lookup_slot-Keeps w ctx s slot.topic t))
        | inr e ↦ rw (lookup_missing, e) (lookup_missing-Keeps w ctx slots (s + 1) t)
      ]

module _ {C W : Type 0} (calls : SubCalls W) where
  ctx_add_pub-sub_slots :
      (w : W) (ctx : SubCtx C) (s : ℕ) (node ip : List ℕ) (port : ℕ)
      → (ctx_add_pub calls w ctx s node ip port).1.sub_slots ≡ ctx.sub_slots
  unfolding ctx_add_pub
  ctx_add_pub-sub_slots w ctx s node ip port =
      elim (Option-cases (find_conn ctx.pub_conns node s 0)) [
        | inr (i, f) ↦ rw (ctx_add_pub, f) refl
        | inl f ↦ elim (Option-cases (free_conn ctx.pub_conns 0)) [
          | inl g ↦ rw (ctx_add_pub, f, g) refl
          | inr (slot, g) ↦ elim (Bool-cases (is_neg (calls.connect_tcp w ip port).1)) [
            | inl refused ↦ rw (ctx_add_pub, f, g, refused) refl
            | inr connected ↦ rw (ctx_add_pub, f, g, connected) refl
          ]
        ]
      ]

  -- While there is a slot free, `cmos_sub_add` fills the next one with its arguments, each cut to its
  -- array.
  pub cmos_sub_add-sub_slots :
      (w : W) (ctx : SubCtx C) (topic : List ℕ) (state type key : Option (List ℕ)) (cb : Option C)
      → length ctx.sub_slots < cm_max_sub_slots
      → (cmos_sub_add calls w ctx topic state type key cb).1.sub_slots
        ≡ ctx.sub_slots ++ (filled_slot topic state type key cb ∷ [])
  unfolding cmos_sub_add
  cmos_sub_add-sub_slots w ctx topic state type key cb room =
      let free : leb cm_max_sub_slots (length ctx.sub_slots) ≡ false =
        gt→leb cm_max_sub_slots (length ctx.sub_slots) room in
      rw free (
        ctx_lookup_slot-Keeps calls
          (λ c. c.sub_slots ≡ ctx.sub_slots ++ (filled_slot topic state type key cb ∷ []))
          (λ w c s node ip port same. ctx_add_pub-sub_slots w c s node ip port ∙ same)
          (λ c sock same. same) _ _ _ _ refl)
