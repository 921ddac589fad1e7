-- ===== src/Streams/Tagged.antt =====
-- usastreams.py: the streams that the tagged dump of the USA cartridge names.
mod Part0
mod Part1
mod Part2
mod Part3
mod Part4
mod Part5
mod Part6
mod Part7
mod Part8
mod Part9
mod Part10
mod Part11
mod Part12
mod Part13
mod Part14
mod Part15
mod Part16
mod Part17
mod Part18
mod Part19
mod Part20
use street_fighter_alpha_2_n.Base.{ℕ, List, ◌++◌}
use street_fighter_alpha_2_n.Streams.Tagged.Part0.{tagged_0}
use street_fighter_alpha_2_n.Streams.Tagged.Part1.{tagged_1}
use street_fighter_alpha_2_n.Streams.Tagged.Part2.{tagged_2}
use street_fighter_alpha_2_n.Streams.Tagged.Part3.{tagged_3}
use street_fighter_alpha_2_n.Streams.Tagged.Part4.{tagged_4}
use street_fighter_alpha_2_n.Streams.Tagged.Part5.{tagged_5}
use street_fighter_alpha_2_n.Streams.Tagged.Part6.{tagged_6}
use street_fighter_alpha_2_n.Streams.Tagged.Part7.{tagged_7}
use street_fighter_alpha_2_n.Streams.Tagged.Part8.{tagged_8}
use street_fighter_alpha_2_n.Streams.Tagged.Part9.{tagged_9}
use street_fighter_alpha_2_n.Streams.Tagged.Part10.{tagged_10}
use street_fighter_alpha_2_n.Streams.Tagged.Part11.{tagged_11}
use street_fighter_alpha_2_n.Streams.Tagged.Part12.{tagged_12}
use street_fighter_alpha_2_n.Streams.Tagged.Part13.{tagged_13}
use street_fighter_alpha_2_n.Streams.Tagged.Part14.{tagged_14}
use street_fighter_alpha_2_n.Streams.Tagged.Part15.{tagged_15}
use street_fighter_alpha_2_n.Streams.Tagged.Part16.{tagged_16}
use street_fighter_alpha_2_n.Streams.Tagged.Part17.{tagged_17}
use street_fighter_alpha_2_n.Streams.Tagged.Part18.{tagged_18}
use street_fighter_alpha_2_n.Streams.Tagged.Part19.{tagged_19}
use street_fighter_alpha_2_n.Streams.Tagged.Part20.{tagged_20}

unfoldable pub tagged : List (ℕ × ℕ)
unfolding tagged_0 tagged_1 tagged_2 tagged_3 tagged_4 tagged_5 tagged_6 tagged_7 tagged_8 tagged_9
    tagged_10 tagged_11 tagged_12 tagged_13 tagged_14 tagged_15 tagged_16 tagged_17 tagged_18
    tagged_19 tagged_20
tagged =
    tagged_0
    ++ (tagged_1
        ++ (tagged_2
            ++ (tagged_3
                ++ (tagged_4
                    ++ (tagged_5
                        ++ (tagged_6
                            ++ (tagged_7
                                ++ (tagged_8
                                    ++ (tagged_9
                                        ++ (tagged_10
                                            ++ (tagged_11
                                                ++ (tagged_12
                                                    ++ (tagged_13
                                                        ++ (tagged_14
                                                            ++ (tagged_15
                                                            ++ (tagged_16
                                                            ++ (tagged_17
                                                            ++ (tagged_18
                                                            ++ (tagged_19
                                                            ++ (tagged_20))))))))))))))))))))
