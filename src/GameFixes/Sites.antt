-- ===== src/GameFixes/Sites.antt =====
-- FIXES and EMPTY_CALLS of gamefixes.py. Names, regions and notes are for the reader of the report
-- and are left out.
use street_fighter_alpha_2_n.Base.{ℕ, List, [], ◌∷◌, hex}

pub record Fix : Type 0 where
  pub stock : List ℕ
  pub patched : List ℕ

unfoldable pub thrown_father : Fix
unfolding hex
thrown_father = record {
  stock = hex "fe280e00fe300f0020341c00203c0a01103808010628060107180401";
  patched = hex "fe280e00fe300f0020301c0020380a01103408010628060107180401";
}

unfoldable pub life_bar_name : Fix
unfolding hex
life_bar_name = record {
  stock = hex "1300061910046d0006231004270006";
  patched = hex "1300061910041d0006231004270006";
}

unfoldable pub select_name : Fix
unfolding hex
select_name = record {
  stock = hex "2700062d01046d0006350006";
  patched = hex "2700062d01041d0006350006";
}

unfoldable pub vs_name : Fix
unfolding hex
vs_name = record {
  stock =
      hex
        "5c25142515250025012526252725002501251a251b25002501255c255c2548254925342535255a255b25342535254e254f25342535255c25";
  patched =
      hex
        "5c255c25242525251c251d25062507251c251d25182519255c255c255c255c2558255925502551253a253b25502551254c254d255c255c25";
}

unfoldable pub results_name : Fix
unfolding hex
results_name = record {
  stock =
      hex
        "30f000c0000000000000000000d52ab3b9feddd7cf8893dffb8c2432f766efda084ffdff30a4fe9fe6d66b63aaed40b5fe1c47f4862c5f4fd4440000003328851edfdf1f67e0137265ffbb5f779600924c6df9df1bdebe3ffd691f01cc892b5bf9ebf9ffcf807c92da79dff8b380849f76f7bcaffecfee5fc01cf276e5f5dc4ec034e39ff3b7ffcfebd2f90ed603c52782f85dfb3fbd8bd5bc002d7acdd9ff28d71e040e513c3ffcdcb7f7e7f63000758e3978ffba4fe400d896bf75f7f9c03e12acde3ebd5cbdf2f6ce80353b15dbf38ebdd1dbe5de0037bebfe7ff5e00ba8e6bf4ffd7c755fcff7804e85372b75fd7eab7ade0ed5fc00000001cf5f453bff8fd78beeb400000000000";
  patched =
      hex
        "30f000c0000000000000000000d52ab3b9feddd7cf8893dffb8c2432f766efda084ffdff30a4fe9fe6d66b63aaed40b5fe1c47f4862c5f4fd4440000003328851edfdf1f67e0137265ffbb5f779600924c6df9df1bdebe3ffd691f01cc892b5bf9ebf9ffcf807c92da79dff8b380849f76f7bcaffecfee5fc01cf276e5f5dc5ec01c73bfe7e7e6fff47f4034db6f2fdf6e1fa7d6f8bfbc00ec8569f8e2fd77de070b2bff787f6fbe66f9f87e0095f5537bf87e5d7c01918e6bedfe7f00c18d44f1f75eff36f9b23a0105ee4f6fc8d7bb1f6f96fc003bebf97ffd7802ea39afd9ffaf1c5fe7ef004e853e95b5fd7eab7ade0eedfc000000004a3ab797bfe3f5e1ff5fa000000000000000";
}

unfoldable pub object_overflow : Fix
unfolding hex
object_overflow = record {
  stock = hex "a628a0000c8420b5a1f005a0000e8420";
  patched = hex "a628a0000cd687b5a1f003a0000e8420";
}

unfoldable pub win_pose_order : Fix
unfolding hex
win_pose_order = record { stock = hex "90039e03c403da03"; patched = hex "260490039e03da03" }

unfoldable pub win_pose_index : Fix
unfolding hex
win_pose_index = record { stock = hex "b578c901f004"; patched = hex "b578c902f004" }

unfoldable pub fixes : List Fix
unfolding thrown_father life_bar_name select_name vs_name results_name object_overflow
    win_pose_order win_pose_index
fixes =
    thrown_father ∷ life_bar_name ∷ select_name ∷ vs_name ∷ results_name ∷ object_overflow
    ∷ win_pose_order ∷ win_pose_index ∷ []

-- the targets of the calls to an empty routine
abbrev pub empty_calls : List ℕ
empty_calls = 0xFFFF4D ∷ 0xF01EEF ∷ 0xFFFEA1 ∷ []
