-- ===== src/Constraints/Standard.antt =====
-- internal/engine/constraint/standard.go: the standard profile of the rules. What `mustAdd` logs is
-- left out.
use stair_platform.Prelude.{String, true, false, some, List, [], ◌∷◌, ℤ, pos, Float}
use stair_platform.Constraints.{Constraint, ConstraintSet, Advice, Range, new_set, add_constraint}

module _ (f : Float) where
  abbrev pub number : ℤ → f.Carrier
  number n = f.of_int n

  -- The ranges of the profile. `tolerance` is 1 over the number.
  abbrev pub between : ℤ → ℤ → ℤ → Range f
  between low high part = record {
    min = number low;
    max = number high;
    has_min = true;
    has_max = true;
    tolerance = f.over (number (pos 1)) (number part);
  }

  abbrev pub at_least : ℤ → ℤ → Range f
  at_least low part = record {
    min = number low;
    max = number (pos 0);
    has_min = true;
    has_max = false;
    tolerance = f.over (number (pos 1)) (number part);
  }

  -- What the rules of the profile have in common.
  abbrev pub standard_rule :
      String → String → String → Range f → String → String → Advice → Constraint f
  standard_rule code category severity range message fix advice = record {
    code = code;
    category = category;
    severity = severity;
    range = range;
    version = pos 1;
    active = true;
    message = message;
    fix = fix;
    advice = some advice;
  }

  abbrev pub step_height_rule : Constraint f
  step_height_rule =
      standard_rule "GEO-STEP-HEIGHT" "geometry" "error" (between (pos 150) (pos 200) (pos 10))
        "высота ступени должна быть в диапазоне 150-200 мм"
        "скорректируйте число ступеней или общую высоту подъёма"
        (record {
          param = "Высота ступени";
          guide =
              "Высота ступени {value} мм вне нормы ({min}–{max} мм). Измените число ступеней — варианты ниже проходят все нормы и подходят к вашей высоте {height} мм.";
          suggest = true;
        })

  abbrev pub tread_depth_rule : Constraint f
  tread_depth_rule =
      standard_rule "GEO-TREAD-DEPTH" "geometry" "error" (between (pos 260) (pos 320) (pos 10))
        "проступь должна быть в диапазоне 260-320 мм"
        "скорректируйте проступь или угол наклона марша"
        (record {
          param = "Проступь";
          guide =
              "Проступь {value} мм вне нормы ({min}–{max} мм). Измените число ступеней (или шаг комфорта) — варианты ниже проходят все нормы.";
          suggest = true;
        })

  abbrev pub angle_rule : Constraint f
  angle_rule =
      standard_rule "GEO-ANGLE" "geometry" "error" (between (pos 30) (pos 45) (pos 100))
        "угол наклона марша должен быть в диапазоне 30-45 градусов" "скорректируйте геометрию марша"
        (record {
          param = "Число ступеней";
          guide =
              "Угол наклона {angle}° вне нормы ({min}–{max}°). Измените число ступеней — варианты ниже дают угол в норме при вашей высоте {height} мм.";
          suggest = true;
        })

  abbrev pub clearance_rule : Constraint f
  clearance_rule =
      standard_rule "GEO-CLEARANCE" "geometry" "warning" (at_least (pos 2000) (pos 1))
        "вертикальный просвет должен быть не менее 2000 мм"
        "увеличьте высоту помещения или измените разбивку марша"
        (record {
          param = "Просвет";
          guide =
              "Просвет {value} мм, нужно не менее {min} мм. Увеличьте поле «Просвет» в конструкторе или измените разбивку марша.";
          suggest = false;
        })

  abbrev pub stringer_rule : Constraint f
  stringer_rule =
      standard_rule "GEO-STRINGER-THICKNESS" "geometry" "warning" (at_least (pos 30) (pos 10))
        "толщина косоура должна быть не менее 30 мм" "увеличьте толщину косоура"
        (record {
          param = "Толщина косоура";
          guide =
              "Толщина косоура {value} мм, нужно не менее {min} мм. Увеличьте поле «Толщина косоура».";
          suggest = false;
        })

  abbrev pub railing_rule : Constraint f
  railing_rule =
      standard_rule "SAF-RAILING-HEIGHT" "safety" "warning" (at_least (pos 900) (pos 1))
        "высота ограждения должна быть не менее 900 мм" "увеличьте высоту ограждения"
        (record {
          param = "Высота перил";
          guide =
              "Высота ограждения {value} мм, нужно не менее {min} мм. Увеличьте поле «Высота перил».";
          suggest = false;
        })

  abbrev pub spiral_tread_rule : Constraint f
  spiral_tread_rule =
      standard_rule "GEO-SPIRAL-TREAD" "geometry" "error" (at_least (pos 100) (pos 1))
        "проступи спирали должны быть в допустимых пределах"
        "измените радиус спирали или ширину марша"
        (record {
          param = "Радиус спирали";
          guide =
              "Проступь {value} мм вне нормы (нужно ≥ {min} мм). Уменьшите радиус спирали или ширину марша — варианты ниже проходят все нормы.";
          suggest = true;
        })

  abbrev pub spiral_radius_rule : Constraint f
  spiral_radius_rule =
      standard_rule "GEO-SPIRAL-RADIUS" "geometry" "error" (at_least (pos 1) (pos 1))
        "наружный радиус спирали должен быть больше ширины марша (иначе колонна имеет нулевой или отрицательный радиус)"
        "увеличьте радиус спирали или уменьшите ширину марша"
        (record {
          param = "Радиус спирали";
          guide =
              "Наружный радиус спирали {value} мм должен быть больше ширины марша {min} мм. Колонна в центре спирали имеет радиус = радиус − ширина марша; при радиусе ≤ ширине марша колонна исчезает или получает отрицательный размер. Увеличьте радиус или уменьшите ширину марша.";
          suggest = true;
        })

  -- A rule that `Add` refuses is skipped.
  abbrev pub must_add : Constraint f → ConstraintSet f → ConstraintSet f
  must_add c s = (add_constraint c s).0

  unfoldable pub add_rules : List (Constraint f) → ConstraintSet f → ConstraintSet f
  add_rules [] s = s
  add_rules (c ∷ cs) s = add_rules cs (must_add c s)

  unfoldable pub standard_profile : String → ConstraintSet f
  unfolding add_rules
  standard_profile name =
      add_rules
        (step_height_rule ∷ tread_depth_rule ∷ angle_rule ∷ clearance_rule ∷ stringer_rule
          ∷ railing_rule ∷ spiral_tread_rule ∷ spiral_radius_rule ∷ [])
        (new_set "cs-standard" name)
