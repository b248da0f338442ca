-- ===== src/Api/Rpc/Session.antt =====
-- What holds of a whole connection.
use forty_six.Base.{◌≡◌, ◌≢◌, refl, List, [], ◌∷◌, Option, some, Error, All}
use forty_six.Api.Rpc.{
  Decoders, Engine, Code, Method, Reply, Handler, Request, query, refused, find_method, handle,
  serve,
}
use forty_six.Api.Rpc.Protocol.{
  Phase, idle, Step, unknown, rejected, opens, fails, absent, closes, used, failed_use, phase,
  IsTotal, handle-Step,
}

-- The reply is an error.
abbrev pub IsRefused : Reply → Type 0
IsRefused reply = (code : Code) × (e : Option Error) × (reply ≡ refused code e)

module _ (dec : Decoders) (eng : Engine) where
  abbrev pub IsOther : Request dec eng → Type 0
  IsOther r = find_method r.method ≢ some query

  idle-refuses :
      {p q : Phase} {m : Option Method} {reply : Reply}
      → Step p m reply q
      → p ≡ idle
      → m ≢ some query
      → IsRefused reply × (q ≡ idle)
  idle-refuses unknown e ne = ((_, _, refl), e)
  idle-refuses (rejected o) e ne = ((_, _, refl), e)
  idle-refuses (opens v) e ne = absurd (ne refl)
  idle-refuses (fails o) e ne = absurd (ne refl)
  idle-refuses (absent h) e ne = ((_, _, refl), e)
  idle-refuses closes e ne = absurd (cc e)
  idle-refuses (used v u) e ne = absurd (cc e)
  idle-refuses (failed_use o u) e ne = absurd (cc e)

  -- On a connection without an iterator, every request but a query is refused, and no iterator is
  -- opened, however many there are.
  pub serve-refuses :
      (rs : List (Request dec eng)) (h : Handler dec eng)
      → IsTotal dec eng
      → All IsOther rs
      → phase dec eng h.iter ≡ idle
      → All IsRefused (serve dec eng rs h).0 × (phase dec eng (serve dec eng rs h).1.iter ≡ idle)
  unfolding serve
  serve-refuses [] h total others e = (tt, e)
  serve-refuses (r ∷ rs) h total (other, others) e =
      let (refusal, still) = idle-refuses (handle-Step dec eng r h total) e other in
      let (rest, end) = serve-refuses rs (handle dec eng r h).1 total others still in
      ((refusal, rest), end)
