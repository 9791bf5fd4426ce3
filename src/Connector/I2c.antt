-- ===== src/Connector/I2c.antt =====
-- Transfers over the i2c bus of the connector (module/evdi_i2c.c): each message goes to the painter in turn.
use evdi.Prelude.{
  ℕ, suc, ◌≤◌, ◌≡◌, refl, arith, Bool, true, false, List, [], ◌∷◌, Option, none, some, ◌==◌,
  if◌then◌else◌,
}
use evdi.World.{World}
use evdi.Painter.State.{Painter, Env}
use evdi.Painter.Ddcci.{I2cMsg, i2c_data_notify, ddcci_finish}

-- A message, with what the kernel answers during it, what other operations do to the painter while it waits,
-- and whether it is woken up in time.
pub record Transfer : Type 0 where
  pub msg : I2cMsg
  pub env : Env
  pub meanwhile : Option Painter → World → Option Painter × World
  pub woken : Bool

abbrev pub finished : Transfer → Option Painter → I2cMsg
finished t none = t.msg
finished t (some p) = ddcci_finish t.woken p t.msg

-- the painter, the messages afterwards, and how many of them were handled
pub access_master :
    List Transfer → Option Painter → World → Option Painter × World × List I2cMsg × ℕ
access_master [] p w = (p, w, [], 0)
access_master (t ∷ rest) p w =
    let (p1, w1, handled) = i2c_data_notify t.env p w (some t.msg) in
    let (p2, w2) = t.meanwhile p1 w1 in
    let (p3, w3, msgs, result) =
      access_master rest (if handled then p2 else p1) (if handled then w2 else w1) in
    (
      p3,
      w3,
      (if handled then finished t p2 else t.msg) ∷ msgs,
      if handled then suc result else result,
    )

-- the messages for the address 0x37
abbrev pub for_display : List Transfer → ℕ
for_display [] = 0
for_display (t ∷ rest) = if t.msg.addr == 0x37 then suc (for_display rest) else for_display rest

handled_addr :
    (env : Env) (p : Option Painter) (w : World) (msg : I2cMsg)
    → (i2c_data_notify env p w (some msg)).2 ≡ true
    → (msg.addr == 0x37) ≡ true
handled_addr env none w msg h = cc
handled_addr env (some p) w msg h = ground arith

counted :
    (b a : Bool) (n m : ℕ)
    → n ≤ m
    → (b ≡ true → a ≡ true)
    → (if b then suc n else n) ≤ (if a then suc m else m)
counted true true n m h k = omega arith
counted true false n m h k = let e = k refl in cc
counted false true n m h k = omega arith
counted false false n m h k = h

-- Whatever happens between and during the messages, no message but those for the display's address counts as
-- handled.
pub access_master-for_display :
    (ts : List Transfer) (p : Option Painter) (w : World)
    → (access_master ts p w).3 ≤ for_display ts
unfolding access_master
access_master-for_display [] p w = omega arith
access_master-for_display (t ∷ rest) p w =
    counted (i2c_data_notify t.env p w (some t.msg)).2 (t.msg.addr == 0x37) _ (for_display rest)
      (access_master-for_display rest _ _) (handled_addr t.env p w t.msg)
