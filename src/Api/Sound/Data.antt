-- ===== src/Api/Sound/Data.antt =====
-- `v_read` and `v_write` of tcp_branch/tcp.c leave the table of sockets in order.
use tcp_archive.Prelude.{
  ℕ, suc, ◌≡◌, some, Bool, true, false, not, ◌&&◌, List, [], ◌==◌, if◌then◌else◌, ℤ, pos, pos_part,
  minus_one, ltb_ℤ, min_ℤ, ◌>>=◌, ◌>>◌, assert, inl, inr, Bool-cases, >>=-eq-some, some_injective,
  subst,
}
use tcp_archive.External.{HTable, Bqueue, Host}
use tcp_archive.Seq.{get_data_from_buffer, get_amount_able_to_accept, copy_data_from_user}
use tcp_archive.Seq.Keeps.{get_data_from_buffer-regs, copy_data_from_user-regs}
use tcp_archive.Node.{Node}
use tcp_archive.Tcpm.{Ctx, tcpm_canread, tcpm_cansend}
use tcp_archive.Tcpm.Keeps.{Keeps-sock}
use tcp_archive.Tcpm.Follows.{Follows-refl, Keeps-Follows}
use tcp_archive.Driver.Sound.{IsSound, IsSoundCtx}
use tcp_archive.Api.{focus, back, v_read, v_write}
use tcp_archive.Api.Sound.Focus.{focus-Sound, back-IsSound, ends}

module _ {H : HTable} {B : Bqueue} (h : Host) where
  reading :
      (w : Ctx H B) (n : ℤ) (readable empty : Bool) (v : Node H B × ℤ × List ℕ)
      → IsSoundCtx w
      → (if readable
          then (if empty
              then some (back h w, pos 0, [])
              else (get_data_from_buffer (suc w.sock.r_buf.size) w.sock n >>= λ (sock, n, bytes).
                  some (back h (record w { sock = sock }), n, bytes)))
          else some (back h w, minus_one, []))
        ≡ some v
      → IsSound v.0
  reading w n false empty v z e =
      subst (λ (z : Node H B × ℤ × List ℕ). IsSound z.0) (some_injective e)
        (back-IsSound h (Follows-refl w) z)
  reading w n true true v z e =
      subst (λ (z : Node H B × ℤ × List ℕ). IsSound z.0) (some_injective e)
        (back-IsSound h (Follows-refl w) z)
  reading w n true false v z e =
      let (r, b, e₂) = >>=-eq-some (get_data_from_buffer (suc w.sock.r_buf.size) w.sock n) _ e in
      subst (λ (z : Node H B × ℤ × List ℕ). IsSound z.0) (some_injective e₂)
        (back-IsSound h {w = w}
          (Keeps-Follows (Keeps-sock r.0 (get_data_from_buffer-regs _ w.sock n r b))) z)

  pub v_read-IsSound :
      (node : Node H B) (s n : ℤ) (v : Node H B × ℤ × List ℕ)
      → v_read h node s n ≡ some v
      → IsSound node
      → IsSound v.0
  unfolding v_read
  v_read-IsSound node s n v e sound =
      let (w, a, e₁) = >>=-eq-some (focus h node s) _ e in
      reading w n (tcpm_canread w.sock) (pos_part n == 0 && not (ltb_ℤ n (pos 0))) v
        (focus-Sound h node s w a sound) e₁

  pub v_write-IsSound :
      (node : Node H B) (s : ℤ) (bytes : List ℕ) (n : ℕ) (v : Node H B × ℤ)
      → v_write h node s bytes n ≡ some v
      → IsSound node
      → IsSound v.0
  unfolding v_write
  v_write-IsSound node s bytes n v e sound =
      let (w, a, e₁) = >>=-eq-some (focus h node s) _ e in
      let z = focus-Sound h node s w a sound in
      elim (Bool-cases (tcpm_cansend w.sock)) [
        | inl p ↦
            (let will_send = min_ℤ (get_amount_able_to_accept w.sock) (pos n) in
              let (t, b₀, e₃) =
                >>=-eq-some
                  (assert (not (ltb_ℤ will_send (pos 0)))
                    >> copy_data_from_user w.sock bytes (pos_part will_send))
                  _ (rw p at e₁) in
              let (_, _, b) = >>=-eq-some (assert (not (ltb_ℤ will_send (pos 0)))) _ b₀ in
              ends e₃ (
                back-IsSound h {w = w}
                  (Keeps-Follows (Keeps-sock t (copy_data_from_user-regs w.sock t bytes _ b))) z))
        | inr p ↦ ends (rw p at e₁) (back-IsSound h (Follows-refl w) z)
      ]
