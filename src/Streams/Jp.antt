-- ===== src/Streams/Jp.antt =====
-- jpstreams.py: the streams of the Japanese cartridge.
mod Part0
mod Part1
mod Part2
mod Part3
mod Part4
mod Part5
mod Part6
mod Part7
mod Part8
mod Part9
mod Part10
mod Part11
mod Part12
mod Part13
mod Part14
mod Part15
mod Part16
mod Part17
mod Part18
mod Part19
mod Part20
use street_fighter_alpha_2_n.Base.{ℕ, List, ◌++◌}
use street_fighter_alpha_2_n.Streams.Jp.Part0.{jp_streams_0}
use street_fighter_alpha_2_n.Streams.Jp.Part1.{jp_streams_1}
use street_fighter_alpha_2_n.Streams.Jp.Part2.{jp_streams_2}
use street_fighter_alpha_2_n.Streams.Jp.Part3.{jp_streams_3}
use street_fighter_alpha_2_n.Streams.Jp.Part4.{jp_streams_4}
use street_fighter_alpha_2_n.Streams.Jp.Part5.{jp_streams_5}
use street_fighter_alpha_2_n.Streams.Jp.Part6.{jp_streams_6}
use street_fighter_alpha_2_n.Streams.Jp.Part7.{jp_streams_7}
use street_fighter_alpha_2_n.Streams.Jp.Part8.{jp_streams_8}
use street_fighter_alpha_2_n.Streams.Jp.Part9.{jp_streams_9}
use street_fighter_alpha_2_n.Streams.Jp.Part10.{jp_streams_10}
use street_fighter_alpha_2_n.Streams.Jp.Part11.{jp_streams_11}
use street_fighter_alpha_2_n.Streams.Jp.Part12.{jp_streams_12}
use street_fighter_alpha_2_n.Streams.Jp.Part13.{jp_streams_13}
use street_fighter_alpha_2_n.Streams.Jp.Part14.{jp_streams_14}
use street_fighter_alpha_2_n.Streams.Jp.Part15.{jp_streams_15}
use street_fighter_alpha_2_n.Streams.Jp.Part16.{jp_streams_16}
use street_fighter_alpha_2_n.Streams.Jp.Part17.{jp_streams_17}
use street_fighter_alpha_2_n.Streams.Jp.Part18.{jp_streams_18}
use street_fighter_alpha_2_n.Streams.Jp.Part19.{jp_streams_19}
use street_fighter_alpha_2_n.Streams.Jp.Part20.{jp_streams_20}

unfoldable pub jp_streams : List (ℕ × ℕ)
unfolding jp_streams_0 jp_streams_1 jp_streams_2 jp_streams_3 jp_streams_4 jp_streams_5 jp_streams_6
    jp_streams_7 jp_streams_8 jp_streams_9 jp_streams_10 jp_streams_11 jp_streams_12 jp_streams_13
    jp_streams_14 jp_streams_15 jp_streams_16 jp_streams_17 jp_streams_18 jp_streams_19
    jp_streams_20
jp_streams =
    jp_streams_0
    ++ (jp_streams_1
        ++ (jp_streams_2
            ++ (jp_streams_3
                ++ (jp_streams_4
                    ++ (jp_streams_5
                        ++ (jp_streams_6
                            ++ (jp_streams_7
                                ++ (jp_streams_8
                                    ++ (jp_streams_9
                                        ++ (jp_streams_10
                                            ++ (jp_streams_11
                                                ++ (jp_streams_12
                                                    ++ (jp_streams_13
                                                        ++ (jp_streams_14
                                                            ++ (jp_streams_15
                                                            ++ (jp_streams_16
                                                            ++ (jp_streams_17
                                                            ++ (jp_streams_18
                                                            ++ (jp_streams_19
                                                            ++ (jp_streams_20))))))))))))))))))))
