-- ===== src/Android/Launch.antt =====
-- source/DecoderAndroidImplementation.cpp: initJavaOnAppLaunch, which looks the Java classes,
-- methods and fields up.
use nfdecoder.Base.{ℕ, ◌+◌, if◌then◌else◌, Bool, Option, none, some, List, [], ◌∷◌}
use nfdecoder.Base.Text.{Text, codes}

-- What is returned where a step fails, in the order of the steps.
abbrev pub launch_errors : List Text
launch_errors =
    codes "Can't get Java VM."
    ∷ codes "Can't get the activity's class."
    ∷ codes "Can't get getClassLoader."
    ∷ codes "Can't get cls."
    ∷ codes "Can't get ClassLoader."
    ∷ codes "Can't get loadClass."
    ∷ codes "Can't find the Decoder class."
    ∷ codes "Can't make the Decoder class global."
    ∷ codes "Can't find the samplerate field."
    ∷ codes "Can't find the numberOfChannels field."
    ∷ codes "Can't find the durationFrames field."
    ∷ codes "Can't find the getLastError method."
    ∷ codes "Can't find the decode method."
    ∷ codes "Can't find the seek method."
    ∷ codes "RegisterNatives failed."
    ∷ []

-- The error of the first step from the `i`-th on that fails; `succeeds` says which ones do not.
unfoldable pub first_error : (ℕ → Bool) → ℕ → List Text → Option Text
first_error succeeds i [] = none
first_error succeeds i (text ∷ texts) =
    let rest = first_error succeeds (i + 1) texts in if succeeds i then rest else some text

-- None is a null pointer: every step has succeeded.
unfoldable pub init_java_on_app_launch : (ℕ → Bool) → Option Text
unfolding first_error
init_java_on_app_launch succeeds = first_error succeeds 0 launch_errors
