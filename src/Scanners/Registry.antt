-- ===== src/Scanners/Registry.antt =====
-- app/main.py: the strategies that are registered.
use ai_market_scanning_engin.Prelude.{ℕ, List, [], ◌∷◌, ◌≡◌, refl, Float, Map, insert}
use ai_market_scanning_engin.Settings.{Settings}
use ai_market_scanning_engin.Scanning.Models.{Strategy}
use ai_market_scanning_engin.Scanning.Engine.{register, get_all}
use ai_market_scanning_engin.Scanners.Candidate.{Column, Texts}
use ai_market_scanning_engin.Scanners.Contexts.{Context, Rows}
use ai_market_scanning_engin.Scanners.Breakout.{breakout_v1}
use ai_market_scanning_engin.Scanners.Vcp.{vcp_v1}
use ai_market_scanning_engin.Scanners.Momentum.{momentum_v1}
use ai_market_scanning_engin.Scanners.Orb.{orb_v1}
use ai_market_scanning_engin.Scanners.Builder.{Scorers}
use ai_market_scanning_engin.Scanners.Universes.{
  Universes, fno_momentum_v1, pre_breakout_v1, ipo_intraday_v1,
}

module _ {D W : Type 0} ⦃f : Float W⦄ ⦃d : Column D W⦄ (settings : Settings W) (texts : Texts)
    (day : ℕ → ℕ) (scorers : Scorers W) (universes : Universes D) (rows : Rows D W) where
  -- the strategies that app/main.py registers, in its order
  abbrev pub registered : List (Strategy (Context D W) W)
  registered =
      breakout_v1 settings texts day rows
      ∷ vcp_v1 settings texts day rows
      ∷ momentum_v1 settings texts day rows
      ∷ orb_v1 settings texts day rows
      ∷ fno_momentum_v1 settings texts day scorers universes rows
      ∷ pre_breakout_v1 settings texts day scorers universes rows
      ∷ ipo_intraday_v1 settings texts day scorers universes rows
      ∷ []

  abbrev pub registry : Map (Strategy (Context D W) W)
  registry = register (ipo_intraday_v1 settings texts day scorers universes rows) (
      register (pre_breakout_v1 settings texts day scorers universes rows) (
        register (fno_momentum_v1 settings texts day scorers universes rows) (
          register (orb_v1 settings texts day rows) (
            register (momentum_v1 settings texts day rows) (
              register (vcp_v1 settings texts day rows)
                (register (breakout_v1 settings texts day rows) []))))))

  pub get_all-registry : get_all registry ≡ registered
  unfolding get_all register insert breakout_v1 vcp_v1 momentum_v1 orb_v1 fno_momentum_v1
      pre_breakout_v1 ipo_intraday_v1
  get_all-registry = refl
